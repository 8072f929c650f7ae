-- ===== src/Agent/Dialing/Delays.antt =====
-- How long the dialing thread of src/main.rs sleeps between two attempts.
use localscale.Prelude.{
  ℕ, zero, suc, ◌+◌, ◌-◌, ◌*◌, ◌^◌, true, false, ap, ◌≤◌, ◌≡◌, refl, min, Bool, inl, inr, Option,
  none, some, List, [], ◌∷◌, All, if_both, subst, Bytes, arith, ok, err, ◌⊎◌, Result, length,
}
use localscale.Agent.Arguments.{retry_delay}
use localscale.Agent.Dialing.{
  Dialer, Session, Input, iterate_in, iterations, iteration, failed, attempt, on_ping, on_pong,
  new_dialer, connected_with, saturating_suc,
}
use localscale.Agent.Status.{PeerTransportStatus}
use localscale.Transport.Action.{TransportError}
use localscale.Transport.Multiplex.{Inboxes}
use localscale.Transport.Wire.{Stream}

-- A sleep of 250 ms while the gate is closed, or one of 1 to 32 seconds.
abbrev pub IsDelay : ℕ → Type 0
IsDelay n = (n ≡ 250) ⊎ ((1000 ≤ n) × (n ≤ 32000))

-- A session runs only without failures.
abbrev pub IsFresh : Option Session → ℕ → Type 0
IsFresh none failures = Unit
IsFresh (some s) failures = failures ≡ 0

abbrev pub IsPaced : Dialer → Type 0
IsPaced d =
    All IsDelay d.delays
    × ((d.failures ≤ 4294967295) × ((d.failures ≤ length d.delays) × IsFresh d.session d.failures))

power-bounds : (k : ℕ) → k ≤ 5 → (1 ≤ 2 ^ k) × (2 ^ k ≤ 32)
power-bounds zero h = omega arith
power-bounds (suc zero) h = omega arith
power-bounds (suc (suc zero)) h = omega arith
power-bounds (suc (suc (suc zero))) h = omega arith
power-bounds (suc (suc (suc (suc zero)))) h = omega arith
power-bounds (suc (suc (suc (suc (suc zero))))) h = omega arith
power-bounds (suc (suc (suc (suc (suc (suc k)))))) h = absurd (omega arith)

min-bound : (n : ℕ) → min n 5 ≤ 5
min-bound n = ground arith

retry_delay-bounds : (n : ℕ) → (1 ≤ retry_delay n) × (retry_delay n ≤ 32)
unfolding retry_delay
retry_delay-bounds n = power-bounds (min (n - 1) 5) (min-bound (n - 1))

saturating-bound : (n m : ℕ) → n ≤ m → (saturating_suc n ≤ 4294967295) × (saturating_suc n ≤ m + 1)
saturating-bound n m h = ground arith

failed-IsPaced : (gate : Bool) (d : Dialer) → IsPaced d → IsPaced (failed gate d)
failed-IsPaced gate d h =
    let b = retry_delay-bounds (saturating_suc d.failures) in
    let c = saturating-bound d.failures (length d.delays) h.1.1.0 in
    ((inr (omega arith, omega arith), h.0), (c.0, (omega arith, tt)))

abbrev pub paces : Dialer → List ℕ × ℕ
paces d = (d.delays, d.failures)

-- The sleeps and the failures behind an attempt: 250 ms while the gate is closed; nothing in front of a session; and
-- otherwise twice as long for each failure before it, from 1 second to 32 seconds.
abbrev waited : Bool → Result TransportError Stream → Dialer → List ℕ × ℕ
waited false x d = (250 ∷ d.delays, d.failures)
waited true (ok stream) d = (d.delays, 0)
waited true (err e) d = ((1000 * 2 ^ min d.failures 5) ∷ d.delays, saturating_suc d.failures)

-- Behind a beat: nothing while the session goes on, and 1 second where it ends.
abbrev beaten : Option Session → List ℕ → List ℕ × ℕ
beaten (some s) delays = (delays, 0)
beaten none delays = (1000 ∷ delays, 1)

abbrev expected : Option Session → Input → Dialer → Dialer → List ℕ × ℕ
expected none i d r = waited i.gate i.connection d
expected (some s) i d r = beaten r.session d.delays

-- An iteration sleeps and counts exactly as described.
abbrev pub IsBackedOff : Input → Dialer → Dialer → Type 0
IsBackedOff i d r = paces r ≡ expected d.session i d r

failure_delay :
    (n : ℕ) → n ≤ 4294967295 → 1000 * retry_delay (saturating_suc n) ≡ 1000 * 2 ^ min n 5
unfolding retry_delay
failure_delay n h =
    let exponent : min (saturating_suc n - 1) 5 ≡ min n 5 = ground arith in
    ap (λ k. 1000 * 2 ^ k) exponent

-- What stays as it is where a session goes on.
on_pong-IsPaced :
    (i : Input) (x : Result TransportError Bytes × Inboxes) (s : Session) (d : Dialer)
    → IsPaced d
    → d.failures ≡ 0
    → IsPaced (on_pong i x s d)
on_pong-IsPaced i (ok address, boxes) s d h calm = (h.0, (h.1.0, (h.1.1.0, calm)))
on_pong-IsPaced i (err e, boxes) s d h calm = failed-IsPaced i.gate_after d h

connected_with-IsPaced :
    (gate : Bool) (x : Result TransportError Stream) (d : Dialer)
    → IsPaced d
    → IsPaced (connected_with gate x d)
connected_with-IsPaced gate (ok stream) d h = (h.0, (omega arith, (omega arith, refl)))
connected_with-IsPaced gate (err e) d h = failed-IsPaced gate d h

calm : (s : Session) (d : Dialer) → d.session ≡ some s → IsPaced d → d.failures ≡ 0
calm s d phase h = subst (λ o. IsFresh o d.failures) phase h.1.1.1

failed-beaten :
    (gate : Bool) (d : Dialer) → d.failures ≡ 0 → paces (failed gate d) ≡ beaten none d.delays
unfolding retry_delay
failed-beaten gate d h =
    let counted : ℕ → List ℕ × ℕ =
      λ n. ((1000 * retry_delay (saturating_suc n)) ∷ d.delays, saturating_suc n) in
    ap counted h

attempt_in-waited :
    (i : Input) (gate : Bool) (x : Result TransportError Stream) (d : Dialer)
    → d.failures ≤ 4294967295
    → paces (attempt (record i { gate = gate; connection = x }) d) ≡ waited gate x d
attempt_in-waited i false x d h = refl
attempt_in-waited i true (ok stream) d h = refl
attempt_in-waited i true (err e) d h =
    let counted : ℕ → List ℕ × ℕ = λ n. (n ∷ d.delays, saturating_suc d.failures) in
    ap counted (failure_delay d.failures h)

attempt-waited :
    (i : Input) (d : Dialer)
    → d.failures ≤ 4294967295
    → paces (attempt i d) ≡ waited i.gate i.connection d
attempt-waited i d h = attempt_in-waited i i.gate i.connection d h

module _ (node peer : Bytes) where
  on_ping-IsPaced :
      (i : Input) (x : Result TransportError (Unit {0}) × Stream) (s : Session) (d : Dialer)
      → IsPaced d
      → d.failures ≡ 0
      → IsPaced (on_ping node peer i x s d)
  on_ping-IsPaced i (ok u, stream) s d h calm = on_pong-IsPaced i _ _ d h calm
  on_ping-IsPaced i (err e, stream) s d h calm = failed-IsPaced i.gate_after d h

  iterate_in-IsPaced :
      (o : Option Session) (i : Input) (d : Dialer)
      → d.session ≡ o
      → IsPaced d
      → IsPaced (iterate_in node peer o i d)
  iterate_in-IsPaced none i d phase h =
      if_both IsPaced i.gate _ _ (λ yes. connected_with-IsPaced i.gate_after i.connection _ h)
        (λ no. ((inl refl, h.0), (h.1.0, (omega arith, h.1.1.1))))
  iterate_in-IsPaced (some s) i d phase h =
      if_both IsPaced i.gate _ _ (λ yes. on_ping-IsPaced i _ _ _ h (calm s d phase h))
        (λ no. failed-IsPaced i.gate_after d h)

  on_pong-beaten :
      (i : Input) (x : Result TransportError Bytes × Inboxes) (s : Session) (d : Dialer)
      → d.failures ≡ 0
      → paces (on_pong i x s d) ≡ beaten (on_pong i x s d).session d.delays
  unfolding retry_delay
  on_pong-beaten i (ok address, boxes) s d calm =
      let counted : ℕ → List ℕ × ℕ = λ n. (d.delays, n) in ap counted calm
  on_pong-beaten i (err e, boxes) s d calm = failed-beaten i.gate_after d calm

  on_ping-beaten :
      (i : Input) (x : Result TransportError (Unit {0}) × Stream) (s : Session) (d : Dialer)
      → d.failures ≡ 0
      → paces (on_ping node peer i x s d) ≡ beaten (on_ping node peer i x s d).session d.delays
  on_ping-beaten i (ok u, stream) s d calm = on_pong-beaten i _ _ d calm
  on_ping-beaten i (err e, stream) s d calm = failed-beaten i.gate_after d calm

  iterate_in-IsBackedOff :
      (o : Option Session) (i : Input) (d : Dialer)
      → d.session ≡ o
      → IsPaced d
      → paces (iterate_in node peer o i d) ≡ expected o i d (iterate_in node peer o i d)
  iterate_in-IsBackedOff none i d phase h = attempt-waited i d h.1.0
  iterate_in-IsBackedOff (some s) i d phase h =
      if_both (λ r. paces r ≡ beaten r.session d.delays) i.gate _ _
        (λ yes. on_ping-beaten i _ _ _ (calm s d phase h))
        (λ no. failed-beaten i.gate_after d (calm s d phase h))

  iterations-IsPaced :
      (is : List Input) (d : Dialer) → IsPaced d → IsPaced (iterations node peer is d)
  unfolding iterations iteration
  iterations-IsPaced [] d h = h
  iterations-IsPaced (i ∷ is) d h =
      iterations-IsPaced is _ (iterate_in-IsPaced d.session i d refl h)

  -- Each iteration of the row backs off exactly.
  abbrev pub AreBackedOff : List Input → Dialer → Type 0
  AreBackedOff [] d = Unit
  AreBackedOff (i ∷ is) d =
      IsBackedOff i d (iteration node peer i d) × AreBackedOff is (iteration node peer i d)

  iterations-AreBackedOff : (is : List Input) (d : Dialer) → IsPaced d → AreBackedOff is d
  unfolding iteration
  iterations-AreBackedOff [] d h = tt
  iterations-AreBackedOff (i ∷ is) d h = (
    iterate_in-IsBackedOff d.session i d refl h,
    iterations-AreBackedOff is _ (iterate_in-IsPaced d.session i d refl h),
  )

  -- Whatever the network, the gate and the peer do, each iteration of the client sleeps exactly so: without a
  -- session, 250 ms if the gate is closed, and if it is open but no session starts, 1 second, doubled for each
  -- failure in a row before it up to 32 seconds; with a session, 1 second if it ends, which is the first failure;
  -- and otherwise not at all between attempts. So each of these sleeps is 250 ms or 1 to 32 seconds; the count of
  -- failures stays within 32 bits and within the number of the sleeps, and is 0 while a session runs.
  pub iterations-new_dialer :
      (is : List Input) (status : PeerTransportStatus) (address : Bytes)
      → AreBackedOff is (new_dialer status address)
        × IsPaced (iterations node peer is (new_dialer status address))
  iterations-new_dialer is status address =
      let start : IsPaced (new_dialer status address) = (tt, (omega arith, (omega arith, tt))) in
      (iterations-AreBackedOff is _ start, iterations-IsPaced is _ start)
