-- ===== src/Proxy/Actions/Runs.antt =====
-- The downstream's handlers of src/proxy.ts, both chunk listeners and whole runs as sequences of the
-- single actions.
use chirindo.Prelude.{Bool, Option, none, some, List, [], ◌∷◌, Text, Bool-cases, inl, inr}
use chirindo.Json.{Json}
use chirindo.Rpc.{RequestId}
use chirindo.Rpc.Lines.{split_lines}
use chirindo.Proxy.State.{
  Deps, PendingAllow, line, client_line_dropped, downstream_line_dropped, State, pending_delete,
}
use chirindo.Proxy.Client.{
  on_parsed, handle_client_line, caught, is_blank, client_lines, on_client_chunk,
}
use chirindo.Proxy.Downstream.{
  pending_of, response_id, deliver, delete_pending, answer_pending, answer, on_response,
  handle_downstream_line, downstream_lines, on_downstream_chunk,
}
use chirindo.Proxy.Run.{Event, client, downstream, handle, run}
use chirindo.Proxy.Actions.{
  changed_pending, buffered_client, buffered_downstream, Acts, rest, Acts-trans, IsActing, once,
  IsActing-to_client, acting_rules,
}
use chirindo.Proxy.Actions.Handlers.{on_parsed-IsActing, caught-Acts}

module _ (deps : Deps) where
  open deps use {js}

  delete_pending-IsActing : (id : RequestId) → IsActing deps (delete_pending deps id)
  unfolding delete_pending
  delete_pending-IsActing id = record {
    acts = λ s. once deps s _ (changed_pending s (pending_delete id s.pending_allows));
  }

  deliver-IsActing :
      (id : RequestId) (text : Text) (ok : Bool) → IsActing deps (deliver deps id text ok)
  unfolding deliver
  deliver-IsActing id text ok = search acting_rules

  answer-IsActing :
      (text : Text) (v : Json) (id : Option RequestId) (p : Option PendingAllow)
      → IsActing deps (answer deps text v id p)
  unfolding answer answer_pending
  answer-IsActing text v (some id) (some p) =
      search (acting_rules, delete_pending-IsActing, deliver-IsActing) depth 8
  answer-IsActing text v (some id) none = IsActing-to_client deps (line text)
  answer-IsActing text v none p = IsActing-to_client deps (line text)

  on_response-IsActing : (r : Option Json) (text : Text) → IsActing deps (on_response deps r text)
  unfolding on_response
  on_response-IsActing none text = search acting_rules
  on_response-IsActing (some v) text = record {
    acts = λ s.
        (answer-IsActing text v (response_id v) (pending_of (response_id v) s.pending_allows)).acts
          s;
  }

  client_lines-Acts : (ls : List Text) (s : State) → Acts deps s (client_lines deps ls s)
  unfolding client_lines handle_client_line
  client_lines-Acts [] s = rest s
  client_lines-Acts (l ∷ ls) s = elim (Bool-cases (is_blank deps l)) [
    | inl blank ↦ rw blank (client_lines-Acts ls s)
    | inr filled ↦
        let r = on_parsed deps (js.parse l) l s in
        let t = caught deps client_line_dropped r in
        rw filled (
          Acts-trans deps s t (client_lines deps ls t)
            (caught-Acts deps client_line_dropped s r
              ((on_parsed-IsActing deps (js.parse l) l).acts s))
            (client_lines-Acts ls t))
  ]

  downstream_lines-Acts : (ls : List Text) (s : State) → Acts deps s (downstream_lines deps ls s)
  unfolding downstream_lines handle_downstream_line
  downstream_lines-Acts [] s = rest s
  downstream_lines-Acts (l ∷ ls) s = elim (Bool-cases (is_blank deps l)) [
    | inl blank ↦ rw blank (downstream_lines-Acts ls s)
    | inr filled ↦
        let r = on_response deps (js.parse l) l s in
        let t = caught deps downstream_line_dropped r in
        rw filled (
          Acts-trans deps s t (downstream_lines deps ls t)
            (caught-Acts deps downstream_line_dropped s r
              ((on_response-IsActing (js.parse l) l).acts s))
            (downstream_lines-Acts ls t))
  ]

  handle-Acts : (e : Event) (s : State) → Acts deps s (handle deps e s)
  unfolding handle on_client_chunk on_downstream_chunk
  handle-Acts (client chunk) s =
      let parts = split_lines s.client_stdin_buf chunk in
      let t : State = record s { client_stdin_buf = parts.rest } in
      Acts-trans deps s t (client_lines deps parts.lines t)
        (once deps s t (buffered_client s parts.rest)) (client_lines-Acts parts.lines t)
  handle-Acts (downstream chunk) s =
      let parts = split_lines s.down_stdout_buf chunk in
      let t : State = record s { down_stdout_buf = parts.rest } in
      Acts-trans deps s t (downstream_lines deps parts.lines t)
        (once deps s t (buffered_downstream s parts.rest)) (downstream_lines-Acts parts.lines t)

  pub run-Acts : (es : List Event) (s : State) → Acts deps s (run deps es s)
  unfolding run
  run-Acts [] s = rest s
  run-Acts (e ∷ es) s =
      let t = handle deps e s in
      Acts-trans deps s t (run deps es t) (handle-Acts e s) (run-Acts es t)
