-- ===== src/ControlClient/Retrying.antt =====
-- How often the client asks for one call, and how long its pauses are.
use appx_forge.Base.{ℕ, Bool-cases, inl, inr, Result, ok, err, leb, ◌==◌, length}
use appx_forge.ControlClient.{
  Client, ClientOutside, ClientErr, Reply, no_reply, replied, Endpoint, heartbeat, ack, poll, event,
  parse_commands, poll_again, after_poll, poll_commands, report_again, after_report, send_report,
  report_event, register, accept, once_more, or_register, send_heartbeat, send_ack, do_auth_request,
}
use appx_forge.ControlClient.Registering.{
  IsWithin, none_more, chain, send-IsWithin, register-IsWithin,
}

module _ (out : ClientOutside) where
  accept-IsWithin : (z : Reply × Client) → IsWithin 0 z.1 (accept out z).1
  unfolding accept
  accept-IsWithin (no_reply, c) = none_more 0 c
  accept-IsWithin (replied status body, c) = elim (Bool-cases (leb 400 status)) [
    | inl e ↦ rw e (none_more 0 c)
    | inr e ↦ rw e (none_more 0 c)
  ]

  again-IsWithin :
      (e : Endpoint) (z : Result ClientErr (Unit {0}) × Client)
      → IsWithin 1 z.1 (once_more out e z).1
  unfolding once_more do_auth_request
  again-IsWithin e (err x, c) = none_more 1 c
  again-IsWithin e (ok x, c) =
      chain 1 0 c (do_auth_request out e c).1 _ (send-IsWithin out e c.node_id _ c)
        (accept-IsWithin (do_auth_request out e c))

  or_register-IsWithin :
      (lost : ℕ) (e : Endpoint) (z : Reply × Client) → IsWithin 6 z.1 (or_register out lost e z).1
  unfolding or_register
  or_register-IsWithin lost e (no_reply, c) = none_more 6 c
  or_register-IsWithin lost e (replied status body, c) = elim (Bool-cases (status == lost)) [
    | inl h ↦ rw h (
        chain 5 1 c (register out c).1 _ (register-IsWithin out c)
          (again-IsWithin e (register out c)))
    | inr h ↦ rw h (chain 0 6 c _ _ (accept-IsWithin (replied status body, c)) (none_more 6 _))
  ]

  parse-IsWithin : (n : ℕ) (z : Reply × Client) → IsWithin 0 z.1 (parse_commands out n z).1
  unfolding parse_commands
  parse-IsWithin n (no_reply, c) = none_more 0 c
  parse-IsWithin n (replied status body, c) = elim (Bool-cases (leb 400 status)) [
    | inl e ↦ rw e (none_more 0 c)
    | inr e ↦ rw e (none_more 0 c)
  ]

  poll_again-IsWithin :
      (z : Result ClientErr (Unit {0}) × Client) → IsWithin 1 z.1 (poll_again out z).1
  unfolding poll_again do_auth_request
  poll_again-IsWithin (err x, c) = none_more 1 c
  poll_again-IsWithin (ok x, c) =
      chain 1 0 c (do_auth_request out poll c).1 _ (send-IsWithin out poll c.node_id _ c)
        (parse-IsWithin (length c.requests) (do_auth_request out poll c))

  after_poll-IsWithin : (n : ℕ) (z : Reply × Client) → IsWithin 6 z.1 (after_poll out n z).1
  unfolding after_poll
  after_poll-IsWithin n (no_reply, c) = none_more 6 c
  after_poll-IsWithin n (replied status body, c) = elim (Bool-cases (status == 401)) [
    | inl h ↦ rw h (
        chain 5 1 c (register out c).1 _ (register-IsWithin out c)
          (poll_again-IsWithin (register out c)))
    | inr h ↦ rw h (chain 0 6 c _ _ (parse-IsWithin n (replied status body, c)) (none_more 6 _))
  ]

  report_again-IsWithin :
      (z : Result ClientErr (Unit {0}) × Client) → IsWithin 1 z.1 (report_again out z).1
  unfolding report_again do_auth_request
  report_again-IsWithin (err x, c) = none_more 1 c
  report_again-IsWithin (ok x, c) = send-IsWithin out event c.node_id _ c

  after_report-IsWithin : (z : Reply × Client) → IsWithin 6 z.1 (after_report out z).1
  unfolding after_report
  after_report-IsWithin (no_reply, c) = none_more 6 c
  after_report-IsWithin (replied status body, c) = elim (Bool-cases (status == 401)) [
    | inl h ↦ rw h (
        chain 5 1 c (register out c).1 _ (register-IsWithin out c)
          (report_again-IsWithin (register out c)))
    | inr h ↦ rw h (none_more 6 c)
  ]

  send_report-IsWithin : (z : Reply × Client) → IsWithin 1 z.1 (send_report out z).1
  unfolding send_report do_auth_request
  send_report-IsWithin (no_reply, c) = send-IsWithin out event c.node_id _ c
  send_report-IsWithin (replied status body, c) = none_more 1 c

  -- Whatever the server answers and whenever the context ends, a heartbeat, the acknowledgment of a
  -- command and a poll each end after at most 7 requests and the report of an event after at most 8,
  -- and if no pause of the client was longer than 8 seconds before, none is afterwards.
  pub requests-IsWithin :
      (c : Client)
      → IsWithin 7 c (send_heartbeat out c).1
        × IsWithin 7 c (send_ack out c).1
        × IsWithin 7 c (poll_commands out c).1
        × IsWithin 8 c (report_event out c).1
  unfolding send_heartbeat send_ack poll_commands report_event do_auth_request
  requests-IsWithin c =
      let first : (e : Endpoint) → IsWithin 1 c (do_auth_request out e c).1 =
        λ e. send-IsWithin out e c.node_id _ c in
      let reported : Reply × Client = send_report out (do_auth_request out event c) in
      (
        chain 1 6 c _ _ (first heartbeat)
            (or_register-IsWithin 404 heartbeat (do_auth_request out heartbeat c)),
        chain 1 6 c _ _ (first ack) (or_register-IsWithin 401 ack (do_auth_request out ack c)),
        chain 1 6 c _ _ (first poll)
            (after_poll-IsWithin (length c.requests) (do_auth_request out poll c)),
        chain 2 6 c reported.1 _
            (chain 1 1 c _ _ (first event) (send_report-IsWithin (do_auth_request out event c)))
            (after_report-IsWithin reported),
      )
