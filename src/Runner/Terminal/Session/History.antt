-- ===== src/Runner/Terminal/Session/History.antt =====
-- Histories of calls of a TerminalSession (services/runner/internal/engine/terminal_sessions.go) and
-- its channels.
use mathlib.Core.Path.{subst}
use git_gym.Prelude.{
  ◌≡◌, refl, ap, sym, true, false, Option, some, List, [], ◌∷◌, arith, All, All-imp,
}
use git_gym.Prelude.Map.{lookup, has, UniqueKeys}
use git_gym.Prelude.{Bool, if◌then◌else◌}
use git_gym.Runner.Terminal.Session.{
  err_closed, no_process, new_session, Session, TerminalError, Call, call_subscribe,
  call_unsubscribe, call_broadcast, call_finish, call_close_backend, call_wait, call_close, finish,
  close_backend, normalize_wait_close_err, wait_process, close, step, run,
}
use git_gym.Runner.Terminal.Session.Channels.{
  IsDistinct, ChannelsInv, subscribe-ChannelsInv, unsubscribe-ChannelsInv, broadcast-ChannelsInv,
  finish-ChannelsInv,
}

-- The calls that leave the channels alone.
SameChannels : Session → Session → Type 0
SameChannels s t =
    (t.subscribers ≡ s.subscribers)
    × (t.closed_channels ≡ s.closed_channels)
    × (t.next_id ≡ s.next_id)

same-ChannelsInv : (s t : Session) → SameChannels s t → ChannelsInv s → ChannelsInv t
unfolding SameChannels
same-ChannelsInv s t (subs, gone, next) v = record {
  unique = subst UniqueKeys (sym subs) v.unique;
  below = λ k sent h. ground (arith, v.below k sent, ap (lookup k) subs);
  once = subst IsDistinct (sym gone) v.once;
  gone =
      subst (All _) (sym gone)
        (All-imp _ _ s.closed_channels (λ k h. ground (arith, ap (lookup k) subs)) v.gone);
}

close_backend-SameChannels :
    (outcome : Option TerminalError) (s : Session) → SameChannels s (close_backend outcome s)
unfolding SameChannels close_backend
close_backend-SameChannels outcome s = ground arith

close_backend-ChannelsInv :
    (outcome : Option TerminalError) (s : Session)
    → ChannelsInv s
    → ChannelsInv (close_backend outcome s)
close_backend-ChannelsInv outcome s v =
    same-ChannelsInv s (close_backend outcome s) (close_backend-SameChannels outcome s) v

wait_process-ChannelsInv :
    (outcome : Option TerminalError) (s : Session)
    → ChannelsInv s
    → ChannelsInv (wait_process outcome s)
unfolding wait_process SameChannels
wait_process-ChannelsInv outcome s v = go s.wait_once s.has_wait
  where
    waited : Session
    waited = record s { wait_once = true; wait_err = outcome }

    go :
        (once has : Bool)
        → ChannelsInv (
            if once
            then s
            else (if has
                then finish (normalize_wait_close_err outcome) waited
                else record s { wait_once = true; wait_err = some no_process }))
    go true has = v
    go false true =
        finish-ChannelsInv (normalize_wait_close_err outcome) waited
          (same-ChannelsInv s waited (refl, refl, refl) v)
    go false false =
        same-ChannelsInv s (record s { wait_once = true; wait_err = some no_process })
          (refl, refl, refl) v

close-ChannelsInv :
    (terminated closing waited : Option TerminalError) (s : Session)
    → ChannelsInv s
    → ChannelsInv (close terminated closing waited s).1
unfolding close
close-ChannelsInv terminated closing waited s v =
    wait_process-ChannelsInv waited _ (go s₁.has_backend)
  where
    s₁ : Session
    s₁ = finish (some err_closed) s

    ended : ChannelsInv s₁
    ended = finish-ChannelsInv (some err_closed) s v

    go : (has : Bool) → ChannelsInv (if has then close_backend closing s₁ else s₁)
    go true = close_backend-ChannelsInv closing s₁ ended
    go false = ended

step-ChannelsInv : (c : Call) (s : Session) → ChannelsInv s → ChannelsInv (step c s)
unfolding step
step-ChannelsInv call_subscribe s v = subscribe-ChannelsInv s v
step-ChannelsInv (call_unsubscribe id) s v = unsubscribe-ChannelsInv id s v
step-ChannelsInv (call_broadcast chunk) s v = broadcast-ChannelsInv chunk s v
step-ChannelsInv (call_finish error) s v = finish-ChannelsInv error s v
step-ChannelsInv (call_close_backend outcome) s v = close_backend-ChannelsInv outcome s v
step-ChannelsInv (call_wait outcome) s v = wait_process-ChannelsInv outcome s v
step-ChannelsInv (call_close terminated closing waited) s v =
    close-ChannelsInv terminated closing waited s v

run_from-ChannelsInv : (cs : List Call) (s : Session) → ChannelsInv s → ChannelsInv (run cs s)
unfolding run
run_from-ChannelsInv [] s v = v
run_from-ChannelsInv (c ∷ cs) s v = run_from-ChannelsInv cs (step c s) (step-ChannelsInv c s v)

-- After any calls, in any order, on a session that was just started: every channel that is closed
-- was handed out and closed once, and is no longer among the subscribers, so nothing is sent to it.
pub run-ChannelsInv :
    (cs : List Call) (backend terminate wait : Bool)
    → ChannelsInv (run cs (new_session backend terminate wait))
unfolding new_session lookup
run-ChannelsInv cs backend terminate wait =
    run_from-ChannelsInv cs (new_session backend terminate wait)
      (record { unique = tt; below = λ k sent h. absurd (ground arith); once = tt; gone = tt })
