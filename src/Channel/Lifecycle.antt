-- ===== src/Channel/Lifecycle.antt =====
-- How a channel ends: by `close`, by `on_disconnect`, or by the watchdog of its duration.
use fastapi_ws_rpc.Base.{
  ℕ, ◌+◌, ◌≤◌, ◌≡◌, ◌∙◌, refl, ap, ◌||◌, ltb, Bool, true, false, Option, List, [], ◌∷◌, arith,
  if◌then◌else◌,
}
use fastapi_ws_rpc.PromiseManager
use fastapi_ws_rpc.PromiseManager.{PromiseManager, get_pending_count}
use fastapi_ws_rpc.Channel.{
  Channel, absent, sleeping, is_sleeping, init, is_closed, close, start_close, close_rest,
  on_disconnect, watchdog_fires,
}

-- What ends a channel, in any order and any number of times. A `close` that waits for its watchdog
-- starts and finishes, and the others can come in between.
pub data Ending : Type 0 where
  closes starts finishes disconnects fires : Ending

-- A channel, and whether a `close` of it waits.
pub record Ends : Type 0 where
  pub channel : Channel
  pub is_waiting : Bool

abbrev pub alone : Channel → Ends
alone c = record { channel = c; is_waiting = false }

unfoldable pub step : Ending → Ends → Ends
unfolding close start_close close_rest on_disconnect watchdog_fires
step closes s = record s { channel = close s.channel }
step starts s =
    let (goes_on, c) = start_close s.channel in
    record { channel = c; is_waiting = s.is_waiting || goes_on }
step finishes s = if s.is_waiting then alone (close_rest s.channel) else s
step disconnects s = record s { channel = on_disconnect s.channel }
step fires s = record s { channel = watchdog_fires s.channel }

unfoldable pub run : List Ending → Ends → Ends
unfolding step
run [] s = s
run (e ∷ es) s = run es (step e s)

-- A `close` that nothing interrupts starts and finishes.
close-start :
    (c : Channel)
    → close c ≡ (let (goes_on, c') = start_close c in if goes_on then close_rest c' else c')
unfolding close start_close close_rest
close-start c = ground arith

-- The callbacks run once at most, and so does the closing of the socket; one of them has happened
-- exactly if the channel is closed. The flag of `close` is set before the channel is closed only
-- while a `close` waits, which has not closed the socket.
pub record IsValid (s : Ends) : Type 0 where
  pub runs : s.channel.disconnect_runs ≤ 1
  pub closes : s.channel.socket_closes ≤ 1
  pub shut : is_closed s.channel ≡ ltb 0 (s.channel.disconnect_runs + s.channel.socket_closes)
  pub waits : s.is_waiting ≡ true → (s.channel.closing ≡ true) × (s.channel.socket_closes ≡ 0)
  pub flagged : s.is_waiting ≡ false → s.channel.closing ≡ true → is_closed s.channel ≡ true

step-IsValid : (e : Ending) (s : Ends) → IsValid s → IsValid (step e s)
unfolding step close start_close close_rest on_disconnect watchdog_fires PromiseManager.close
step-IsValid closes s v = record {
  runs = ground (arith, v.runs, v.closes, v.shut, v.waits, v.flagged);
  closes = ground (arith, v.runs, v.closes, v.shut, v.waits, v.flagged);
  shut = ground (arith, v.runs, v.closes, v.shut, v.waits, v.flagged);
  waits = λ h. (
    ground (arith, v.runs, v.closes, v.shut, v.waits, v.flagged),
    ground (arith, v.runs, v.closes, v.shut, v.waits, v.flagged),
  );
  flagged = λ h g. ground (arith, v.runs, v.closes, v.shut, v.waits, v.flagged);
}
step-IsValid starts s v = record {
  runs = ground (arith, v.runs, v.closes, v.shut, v.waits, v.flagged);
  closes = ground (arith, v.runs, v.closes, v.shut, v.waits, v.flagged);
  shut = ground (arith, v.runs, v.closes, v.shut, v.waits, v.flagged);
  waits = λ h. (
    ground (arith, v.runs, v.closes, v.shut, v.waits, v.flagged),
    ground (arith, v.runs, v.closes, v.shut, v.waits, v.flagged),
  );
  flagged = λ h g. ground (arith, v.runs, v.closes, v.shut, v.waits, v.flagged);
}
step-IsValid finishes s v = record {
  runs = ground (arith, v.runs, v.closes, v.shut, v.waits, v.flagged);
  closes = ground (arith, v.runs, v.closes, v.shut, v.waits, v.flagged);
  shut = ground (arith, v.runs, v.closes, v.shut, v.waits, v.flagged);
  waits = λ h. (
    ground (arith, v.runs, v.closes, v.shut, v.waits, v.flagged),
    ground (arith, v.runs, v.closes, v.shut, v.waits, v.flagged),
  );
  flagged = λ h g. ground (arith, v.runs, v.closes, v.shut, v.waits, v.flagged);
}
step-IsValid disconnects s v = record {
  runs = ground (arith, v.runs, v.closes, v.shut, v.waits, v.flagged);
  closes = ground (arith, v.runs, v.closes, v.shut, v.waits, v.flagged);
  shut = ground (arith, v.runs, v.closes, v.shut, v.waits, v.flagged);
  waits = λ h. (
    ground (arith, v.runs, v.closes, v.shut, v.waits, v.flagged),
    ground (arith, v.runs, v.closes, v.shut, v.waits, v.flagged),
  );
  flagged = λ h g. ground (arith, v.runs, v.closes, v.shut, v.waits, v.flagged);
}
step-IsValid fires s v = record {
  runs = ground (arith, v.runs, v.closes, v.shut, v.waits, v.flagged);
  closes = ground (arith, v.runs, v.closes, v.shut, v.waits, v.flagged);
  shut = ground (arith, v.runs, v.closes, v.shut, v.waits, v.flagged);
  waits = λ h. (
    ground (arith, v.runs, v.closes, v.shut, v.waits, v.flagged),
    ground (arith, v.runs, v.closes, v.shut, v.waits, v.flagged),
  );
  flagged = λ h g. ground (arith, v.runs, v.closes, v.shut, v.waits, v.flagged);
}

run-IsValid : (es : List Ending) (s : Ends) → IsValid s → IsValid (run es s)
unfolding run
run-IsValid [] s v = v
run-IsValid (e ∷ es) s v = run-IsValid es (step e s) (step-IsValid e s v)

-- Over any sequence of closes, disconnections and watchdog expiries of a new channel, which can
-- also come in while a close waits for its watchdog, the disconnect callbacks run at most once,
-- the socket is closed at most once, and one of the two has happened exactly if the channel is
-- closed.
pub run-init-once :
    (loop_running has_duration : Bool) (max_pending max_send : Option ℕ) (es : List Ending)
    → let c = (run es (alone (init loop_running has_duration max_pending max_send))).channel in
      (c.disconnect_runs ≤ 1)
      × (c.socket_closes ≤ 1)
      × (is_closed c ≡ ltb 0 (c.disconnect_runs + c.socket_closes))
unfolding init PromiseManager.init
run-init-once loop_running has_duration max_pending max_send es =
    let v = run-IsValid es (alone (init loop_running has_duration max_pending max_send)) (record {
      runs = omega arith;
      closes = omega arith;
      shut = refl;
      waits = λ h. cc;
      flagged = λ h g. cc;
    }) in
    (v.runs, v.closes, v.shut)

step_closed :
    (e : Ending) (s : Ends)
    → is_closed s.channel ≡ true
    → s.is_waiting ≡ false
    → let s' = step e s in
      (is_closed s'.channel ≡ true)
      × (s'.is_waiting ≡ false)
      × (s'.channel.socket_closes ≡ s.channel.socket_closes)
      × (s'.channel.disconnect_runs ≡ s.channel.disconnect_runs)
unfolding step close start_close close_rest on_disconnect watchdog_fires PromiseManager.close
step_closed closes s shut calm = ground arith
step_closed starts s shut calm = ground arith
step_closed finishes s shut calm = ground arith
step_closed disconnects s shut calm = ground arith
step_closed fires s shut calm = ground arith

-- Nothing that ends a channel has an effect on a closed one for which no `close` waits: it stays
-- closed, and neither its socket is closed nor its callbacks run again.
run_closed :
    (es : List Ending) (s : Ends)
    → is_closed s.channel ≡ true
    → s.is_waiting ≡ false
    → let s' = run es s in
      (is_closed s'.channel ≡ true)
      × (s'.channel.socket_closes ≡ s.channel.socket_closes)
      × (s'.channel.disconnect_runs ≡ s.channel.disconnect_runs)
unfolding run
run_closed [] s shut calm = (shut, refl, refl)
run_closed (e ∷ es) s shut calm =
    let (shut', calm', sockets, callbacks) = step_closed e s shut calm in
    ground (arith, sockets, callbacks, run_closed es (step e s) shut' calm')

watchdog_fires-closes :
    (c : Channel)
    → is_closed c ≡ false
    → c.closing ≡ false
    → c.watchdog ≡ sleeping
    → let c' = watchdog_fires c in
      (is_closed c' ≡ true)
      × (c'.disconnect_runs ≡ c.disconnect_runs + 1)
      × (get_pending_count c'.promises ≡ 0)
      × (c'.socket_closes ≡ c.socket_closes)
unfolding watchdog_fires close close_rest on_disconnect PromiseManager.close get_pending_count
watchdog_fires-closes c is_open idle asleep = ground (arith, ap is_sleeping asleep)

-- When the watchdog of an open channel that nobody is closing wakes from its sleep, the disconnect
-- callbacks run and nothing is pending, but the socket is closed neither then nor by any later
-- close or disconnection.
pub watchdog_fires_socket :
    (c : Channel) (es : List Ending)
    → is_closed c ≡ false
    → c.closing ≡ false
    → c.watchdog ≡ sleeping
    → let c' = watchdog_fires c in
      (is_closed c' ≡ true)
      × (c'.disconnect_runs ≡ c.disconnect_runs + 1)
      × (get_pending_count c'.promises ≡ 0)
      × ((run es (alone c')).channel.socket_closes ≡ c.socket_closes)
unfolding watchdog_fires close close_rest on_disconnect PromiseManager.close get_pending_count
watchdog_fires_socket c es is_open idle asleep =
    let (shut, ran, none_left, sockets) = watchdog_fires-closes c is_open idle asleep in
    (shut, ran, none_left, (run_closed es (alone (watchdog_fires c)) shut refl).1 ∙ sockets)

-- The close of an open channel that nobody is closing cancels the watchdog, closes the socket once
-- and leaves nothing pending; the watchdog can then do nothing, and a second close neither.
pub close_ends :
    (c : Channel)
    → is_closed c ≡ false
    → c.closing ≡ false
    → let c' = close c in
      (is_closed c' ≡ true)
      × (c'.socket_closes ≡ c.socket_closes + 1)
      × (c'.watchdog ≡ absent)
      × (get_pending_count c'.promises ≡ 0)
      × (watchdog_fires c' ≡ c')
      × (close c' ≡ c')
unfolding watchdog_fires close close_rest on_disconnect PromiseManager.close get_pending_count
close_ends c is_open idle = ground arith

-- After a disconnection `close` does nothing at all: a sleeping watchdog goes on sleeping.
pub on_disconnect-close : (c : Channel) → close (on_disconnect c) ≡ on_disconnect c
unfolding close on_disconnect PromiseManager.close
on_disconnect-close c = ground arith
