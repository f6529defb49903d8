-- ===== src/Recovery/Bounds.antt =====
-- browserRecovery.ts: an episode makes at most eight attempts, and none when it is stopped, disposed
-- or hidden.
use terminus_web.Prelude.{
  ℕ, ◌+◌, ◌≤◌, ◌<◌, ◌≡◌, refl, Bool, true, false, List, [], ◌∷◌, ◌++◌, is_some, arith,
}
use terminus_web.Recovery.{
  World, Recovery, Action, connect, release, detach, delay, max_attempts, visible, eligible,
  is_connected, Event, timer_fired, adapter_changed, manual, step, run,
}

abbrev pub connects : List Action → ℕ
connects [] = 0
connects (connect s ∷ as_) = connects as_ + 1
connects (_ ∷ as_) = connects as_

-- What holds between two events.
pub record IsValid (r : Recovery) : Type 0 where
  pub bounded : r.attempts ≤ max_attempts
  pub timed : is_some r.timer ≡ true → (r.timer ≡ delay r.attempts) × (r.attempts < max_attempts)
  pub running :
      is_some r.timer ≡ true → (r.disposed ≡ false) × (r.stopped ≡ false) × (r.page_hidden ≡ false)

-- Every event keeps the count of attempts at eight or below, a timer is set only for the next
-- attempt and with its delay, and only while the episode is neither stopped nor disposed and its
-- page is shown.
pub step-IsValid : (w : World) (e : Event) (r : Recovery) → IsValid r → IsValid (step w e r).0
unfolding step
step-IsValid w timer_fired r v = ground arith
step-IsValid w _ r v = ground arith

-- The events that give an episode its attempts back.
abbrev pub replenishes : World → Event → Bool
replenishes w manual = true
replenishes w adapter_changed = is_connected w.state
replenishes w _ = false

step-connects :
    (w : World) (e : Event) (r : Recovery)
    → replenishes w e ≡ false
    → connects (step w e r).1 + r.attempts ≡ (step w e r).0.attempts
unfolding step
step-connects w timer_fired r h = ground arith
step-connects w _ r h = ground arith

connects-append : (as_ bs : List Action) → connects (as_ ++ bs) ≡ connects as_ + connects bs
connects-append [] bs = omega arith
connects-append (connect s ∷ as_) bs = omega (arith, connects-append as_ bs)
connects-append (release ∷ as_) bs = connects-append as_ bs
connects-append (detach ∷ as_) bs = connects-append as_ bs

-- No event gives attempts back.
abbrev pub IsEpisode : List (World × Event) → Type 0
IsEpisode [] = Unit
IsEpisode ((w, e) ∷ es) = (replenishes w e ≡ false) × IsEpisode es

run-connects :
    (es : List (World × Event)) (r : Recovery)
    → IsEpisode es
    → connects (run es r).1 + r.attempts ≡ (run es r).0.attempts
unfolding run
run-connects [] r h = omega arith
run-connects ((w, e) ∷ es) r (q, h) = omega (
  arith,
  connects-append (step w e r).1 (run es (step w e r).0).1,
  step-connects w e r q,
  run-connects es (step w e r).0 h,
)

run-IsValid : (es : List (World × Event)) (r : Recovery) → IsValid r → IsValid (run es r).0
unfolding run
run-IsValid [] r v = v
run-IsValid ((w, e) ∷ es) r v = run-IsValid es (step w e r).0 (step-IsValid w e r v)

-- Without a successful connection and without a call of `manual`, any events at all lead to no more
-- attempts than are left of eight: repeated lifecycle events do not replenish them.
pub episode_is_bounded :
    (es : List (World × Event)) (r : Recovery)
    → IsValid r
    → IsEpisode es
    → connects (run es r).1 + r.attempts ≤ max_attempts
episode_is_bounded es r v h = omega (arith, run-connects es r h, (run-IsValid es r v).bounded)

step-disposed :
    (w : World) (e : Event) (r : Recovery)
    → r.disposed ≡ true
    → ((step w e r).0.disposed ≡ true) × (connects (step w e r).1 ≡ 0)
unfolding step
step-disposed w timer_fired r h = ground arith
step-disposed w _ r h = ground arith

-- After `dispose` no event at all, not even a call of `manual`, leads to an attempt.
pub disposed_never_connects :
    (es : List (World × Event)) (r : Recovery) → r.disposed ≡ true → connects (run es r).1 ≡ 0
unfolding run
disposed_never_connects [] r h = refl
disposed_never_connects ((w, e) ∷ es) r h =
    let (still, here) = step-disposed w e r h in
    omega (
      arith,
      connects-append (step w e r).1 (run es (step w e r).0).1,
      here,
      disposed_never_connects es (step w e r).0 still,
    )

abbrev pub is_manual : Event → Bool
is_manual manual = true
is_manual _ = false

abbrev pub HasNoManual : List (World × Event) → Type 0
HasNoManual [] = Unit
HasNoManual ((w, e) ∷ es) = (is_manual e ≡ false) × HasNoManual es

step-stopped :
    (w : World) (e : Event) (r : Recovery)
    → r.stopped ≡ true
    → is_manual e ≡ false
    → ((step w e r).0.stopped ≡ true) × (connects (step w e r).1 ≡ 0)
unfolding step
step-stopped w timer_fired r h m = ground arith
step-stopped w _ r h m = ground arith

-- After `stop` there is no attempt until `manual` is called, even if the adapter reports a
-- connection in between.
pub stopped_never_connects :
    (es : List (World × Event)) (r : Recovery)
    → r.stopped ≡ true
    → HasNoManual es
    → connects (run es r).1 ≡ 0
unfolding run
stopped_never_connects [] r h m = refl
stopped_never_connects ((w, e) ∷ es) r h (m, ms) =
    let (still, here) = step-stopped w e r h m in
    omega (
      arith,
      connects-append (step w e r).1 (run es (step w e r).0).1,
      here,
      stopped_never_connects es (step w e r).0 still ms,
    )

-- An attempt is made only by a timer that was set, on a page that is shown and online, in a state
-- from which recovery makes sense, by an episode that is neither stopped nor disposed.
pub attempt_needs_world :
    (w : World) (e : Event) (r : Recovery)
    → 0 < connects (step w e r).1
    → (e ≡ timer_fired)
      × (is_some r.timer ≡ true)
      × (visible r w ≡ true)
      × (eligible w ≡ true)
      × (r.stopped ≡ false)
      × (r.disposed ≡ false)
unfolding step
attempt_needs_world w timer_fired r h = ground arith
attempt_needs_world w _ r h = ground arith
