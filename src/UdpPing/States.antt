-- ===== src/UdpPing/States.antt =====
-- The states of a ping under every order of events. libuv calls back for a timer only while the timer
-- runs; the timer of the reply, which is started without a repeat, runs no longer when it calls back.
use mathlib.Core.Path.{subst}
use mumble_web_demo.Prelude.{
  ℕ, ◌≡◌, ◌≢◌, inl, inr, All, Bool-cases, refl, Bool, true, false, List, [], ◌∷◌, ◌==◌, done, arith,
}
use mumble_web_demo.UdpPing.{
  Ping, Call, send, start_reply, stop_reply, start_period, stop_period, reply_timer_cb,
  period_timer_cb, recv, start, stop,
}
use mumble_web_demo.UdpPing.Attempt.{IsReady, period_cases}

-- Whether the two timers run.
pub record Timers : Type 0 where
  pub period : Bool
  pub reply : Bool

unfoldable pub call : Call → Timers → Timers
call (send bytes) t = t
call (start_reply timeout) t = record t { reply = true }
call stop_reply t = record t { reply = false }
call (start_period repeat) t = record t { period = true }
call stop_period t = record t { period = false }

unfoldable pub calls : List Call → Timers → Timers
unfolding call
calls [] t = t
calls (c ∷ cs) t = calls cs (call c t)

module _ {Socket Address : Type 0} where
  -- An event takes a ping and its timers to the next.
  pub data Step : Ping Socket Address → Timers → Ping Socket Address → Timers → Type 0 where
    started : (p : Ping Socket Address) (t : Timers) → Step p t (start p).0 (calls (start p).1 t)
    stopped : (p : Ping Socket Address) (t : Timers) → Step p t (stop p).0 (calls (stop p).1 t)
    replied :
        (p : Ping Socket Address) (t : Timers) (time : ℕ)
        → Step p t (recv p time).0 (calls (recv p time).1 t)
    period_fires :
        (p p' : Ping Socket Address) (t : Timers) (now later written : ℕ) (cs : List Call)
        → t.period ≡ true
        → period_timer_cb now later written p ≡ done (p', cs)
        → Step p t p' (calls cs t)
    reply_fires :
        (p : Ping Socket Address) (t : Timers)
        → t.reply ≡ true
        → Step p t (reply_timer_cb p) (record t { reply = false })

  pub data Reach (p0 : Ping Socket Address) : Ping Socket Address → Timers → Type 0 where
    created : Reach p0 p0 (record { period = false; reply = false })
    next :
        {p p' : Ping Socket Address} {t t' : Timers}
        → Reach p0 p t
        → Step p t p' t'
        → Reach p0 p' t'

  -- What holds of a ping and its timers at any time.
  pub record IsSound (p : Ping Socket Address) (t : Timers) : Type 0 where
    pub ready : IsReady p
    pub waits : t.reply ≡ true → p.waiting ≡ true

  stopped-IsSound :
      (p : Ping Socket Address) (t : Timers) → IsSound p t → IsSound (stop p).0 (calls (stop p).1 t)
  unfolding stop calls call
  stopped-IsSound p t s = record {
    ready = record { tail = s.ready.tail; buf = s.ready.buf; room = s.ready.room };
    waits = λ e. cc e;
  }

  replied-IsSound :
      (p : Ping Socket Address) (t : Timers) (time : ℕ)
      → IsSound p t
      → IsSound (recv p time).0 (calls (recv p time).1 t)
  unfolding recv calls call
  replied-IsSound p t time s = elim (Bool-cases p.waiting) [
    | inr off ↦ record {
      ready = record {
        tail = s.ready.tail;
        buf = ground (arith, off, s.ready.buf);
        room = s.ready.room;
      };
      waits = λ e. ground (arith, off, e, s.waits);
    }
    | inl on ↦ elim (Bool-cases (time == p.timestamp)) [
      | inl same ↦ record {
        ready = record {
          tail = s.ready.tail;
          buf = ground (arith, on, same, s.ready.buf);
          room = s.ready.room;
        };
        waits = λ e. ground (arith, on, same, e);
      }
      | inr other ↦ record {
        ready = record {
          tail = s.ready.tail;
          buf = ground (arith, on, other, s.ready.buf);
          room = s.ready.room;
        };
        waits = λ e. ground (arith, on, other, e, s.waits);
      }
    ]
  ]

  period-IsSound :
      (p p' : Ping Socket Address) (t : Timers) (now later written : ℕ) (cs : List Call)
      → period_timer_cb now later written p ≡ done (p', cs)
      → IsSound p t
      → IsSound p' (calls cs t)
  period-IsSound p p' t now later written cs e s = elim (period_cases now later written p s.ready) [
    | inl failed ↦ cc (e, failed.1)
    | inr ok ↦
        let same : ok.1.0 ≡ p' = cc (e, ok.1.1) in
        record { ready = subst IsReady same ok.1.5; waits = λ _. cc (same, ok.1.3) }
  ]

  -- From a ping that is ready, with both timers off, no order of events leads to a state in which
  -- the timer of the reply runs and the ping does not wait, and the buffer keeps its header and
  -- its size.
  pub Reach-IsSound :
      (p0 p : Ping Socket Address) (t : Timers) → IsReady p0 → Reach p0 p t → IsSound p t
  unfolding start reply_timer_cb calls call
  Reach-IsSound p0 p t r created = record { ready = r; waits = λ e. cc e }
  Reach-IsSound p0 p t r (next before (started q t')) =
      let s = Reach-IsSound p0 q t' r before in record { ready = s.ready; waits = s.waits }
  Reach-IsSound p0 p t r (next before (stopped q t')) =
      stopped-IsSound q t' (Reach-IsSound p0 q t' r before)
  Reach-IsSound p0 p t r (next before (replied q t' time)) =
      replied-IsSound q t' time (Reach-IsSound p0 q t' r before)
  Reach-IsSound p0 p t r (next before (period_fires q q' t' now later written cs _ e)) =
      period-IsSound q q' t' now later written cs e (Reach-IsSound p0 q t' r before)
  Reach-IsSound p0 p t r (next before (reply_fires q t' _)) =
      let s = Reach-IsSound p0 q t' r before in
      record {
        ready = record { tail = s.ready.tail; buf = s.ready.buf; room = s.ready.room };
        waits = λ e. cc e;
      }

  -- Replies, one after the other.
  pub replies : Ping Socket Address → List ℕ → Ping Socket Address
  replies p [] = p
  replies p (t ∷ ts) = replies (recv p t).0 ts

  ignored :
      (p : Ping Socket Address) (ts : List ℕ) → All (λ t. t ≢ p.timestamp) ts → replies p ts ≡ p
  unfolding replies recv
  ignored p [] h = refl
  ignored p (t ∷ ts) h = ground (arith, h.0, ignored p ts h.1)

  -- An attempt that gets replies with other times only, until the timer of the reply calls back,
  -- leaves the ping disconnected and not waiting. One reply with its time, after any others,
  -- leaves it connected and not waiting, and stops that timer.
  pub attempt_outcome :
      (p p' : Ping Socket Address) (now later written : ℕ) (cs : List Call) (ts : List ℕ)
      → IsReady p
      → period_timer_cb now later written p ≡ done (p', cs)
      → All (λ t. t ≢ now) ts
      → (((reply_timer_cb (replies p' ts)).connected ≡ false)
          × ((reply_timer_cb (replies p' ts)).waiting ≡ false))
        × (((recv (replies p' ts) now).0.connected ≡ true)
            × ((recv (replies p' ts) now).0.waiting ≡ false)
            × ((recv (replies p' ts) now).1 ≡ stop_reply ∷ []))
  unfolding reply_timer_cb recv
  attempt_outcome p p' now later written cs ts ready e other =
      elim (period_cases now later written p ready) [
        | inl failed ↦ cc (e, failed.1)
        | inr ok ↦
            let same : ok.1.0 ≡ p' = cc (e, ok.1.1) in
            let at : p'.timestamp ≡ now = cc (same, ok.1.2) in
            let waits : p'.waiting ≡ true = cc (same, ok.1.3) in
            let kept : replies p' ts ≡ p' = ignored p' ts (rw at other) in
            ((refl, refl), ground (arith, kept, at, waits))
      ]

  -- On a ping that waits, a reply to the last attempt that comes after `mumble_udp_ping_stop`
  -- marks the ping as connected, with both timers off.
  pub stop_late_reply :
      (p : Ping Socket Address) (t : Timers)
      → p.waiting ≡ true
      → ((recv (stop p).0 p.timestamp).0.connected ≡ true)
        × (calls (recv (stop p).0 p.timestamp).1 (calls (stop p).1 t)
            ≡ record { period = false; reply = false })
  unfolding stop recv calls call
  stop_late_reply p t waits = ground (arith, waits)
