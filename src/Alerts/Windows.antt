-- ===== src/Alerts/Windows.antt =====
-- internal/store/aggregations.go: stageWindowBounds. The schema has only positive cycles. The moments are
-- numbers of nanoseconds; Unix() cuts them off to seconds, and Nanosecond() is the rest.
use de_box_asset_alert.Prelude.{
  ℕ, ◌+◌, ◌-◌, ◌*◌, ◌/◌, ◌%◌, ◌≤◌, ◌<◌, String, Bool, not, ◌&&◌, ◌≡◌, refl, inl, inr, str_eq, ◌==◌,
  ltb, arith, Bool-cases, if◌then◌else◌,
}
use native.Mathlib.Nat.{div-add-mod, mod-lt}

-- time.Second
abbrev pub second : ℕ
second = 1000000000

unfoldable pub stage_window_bounds : String → ℕ → ℕ → ℕ → ℕ × ℕ
stage_window_bounds cycle_type cycle_minutes anchor now =
    let cycle_seconds = cycle_minutes * 60 in
    let from = if ltb now anchor then now else anchor in
    let elapsed_seconds = now / second - from / second in
    let start_unix = from / second + elapsed_seconds / cycle_seconds * cycle_seconds in
    if str_eq cycle_type "follow" then (now, now + cycle_seconds * second) else (
      start_unix * second + from % second,
      (start_unix + cycle_seconds) * second + from % second,
    )

-- The only way for a window to start after the moment: a whole number of cycles lies between the seconds
-- of the anchor and of the moment, and the fraction of the anchor is the larger one.
abbrev pub is_early : String → ℕ → ℕ → ℕ → Bool
is_early cycle_type cycle_minutes anchor now =
    not (str_eq cycle_type "follow")
    && (not (ltb now anchor)
        && (((now / second - anchor / second) % (cycle_minutes * 60) == 0)
            && ltb (now % second) (anchor % second)))

-- A window as long as the cycle, which is not over, and which has begun or begins within a second.
pub record IsCycle (cycle_type : String) (cycle_minutes anchor now : ℕ) (bounds : ℕ × ℕ)
    : Type 0 where
  pub size : bounds.1 ≡ bounds.0 + cycle_minutes * 60 * second
  pub runs : now < bounds.1
  pub near : bounds.0 < now + second
  pub early : ltb now bounds.0 ≡ is_early cycle_type cycle_minutes anchor now

-- The steps of d from the seconds a and the fraction f that reach the seconds s and the fraction g.
cycle_steps :
    (a s f g d q m : ℕ)
    → a ≤ s
    → q + m ≡ s - a
    → m < d
    → f < second
    → g < second
    → (s * second + g < (a + q + d) * second + f)
      × (((a + q) * second + f < s * second + g + second)
          × (ltb (s * second + g) ((a + q) * second + f) ≡ ((m == 0) && ltb g f)))
cycle_steps a s f g d q m le e b h k =
    (omega (arith, le, e, b, h, k), (omega (arith, le, e, b, h, k), ground (arith, le, e, b, h, k)))

-- The moment is in the second that its division gives, at a fraction.
split : (n : ℕ) → (n ≡ n / second * second + n % second) × (n % second < second)
split n = (omega (arith, div-add-mod n second), mod-lt n (omega arith))

fixed_bounds-IsCycle :
    (cycle_minutes anchor now : ℕ)
    → 0 < cycle_minutes
    → anchor ≤ now
    → let cycle = cycle_minutes * 60 in
      let elapsed = now / second - anchor / second in
      let start = (anchor / second + elapsed / cycle * cycle) * second + anchor % second in
      (now < (anchor / second + elapsed / cycle * cycle + cycle) * second + anchor % second)
      × ((start < now + second)
          × (ltb now start ≡ ((elapsed % cycle == 0) && ltb (now % second) (anchor % second))))
fixed_bounds-IsCycle cycle_minutes anchor now h le =
    let cycle = cycle_minutes * 60 in
    let elapsed = now / second - anchor / second in
    let (at, part) = split now in
    let (from, rest) = split anchor in
    let (runs, (near, early)) =
      cycle_steps (anchor / second) (now / second) (anchor % second) (now % second) cycle
        (elapsed / cycle * cycle) (elapsed % cycle) (omega (arith, at, part, from, rest, le))
        (omega (arith, div-add-mod elapsed cycle)) (mod-lt elapsed (omega (arith, h))) rest part in
    (omega (arith, at, runs), (omega (arith, at, near), ground (arith, at, early)))

-- A cycle of one minute or more gives a window of that length, of either type, which is not over at the
-- moment and begins less than a second after it, if not before or at it. It begins after the moment
-- exactly if the type is a fixed one, the anchor is not after the moment, the seconds of the two are
-- whole cycles apart, and the fraction of a second of the anchor is the larger one.
pub stage_window_bounds-IsCycle :
    (cycle_type : String) (cycle_minutes anchor now : ℕ)
    → 0 < cycle_minutes
    → IsCycle cycle_type cycle_minutes anchor now
        (stage_window_bounds cycle_type cycle_minutes anchor now)
unfolding stage_window_bounds
stage_window_bounds-IsCycle cycle_type cycle_minutes anchor now h =
    elim (Bool-cases (str_eq cycle_type "follow")) [
      | inl e ↦ rw e (record {
        size = refl;
        runs = omega (arith, h);
        near = omega arith;
        early = ground arith;
      })
      | inr e ↦ elim (Bool-cases (ltb now anchor)) [
        | inl f ↦
            let (runs, (near, early)) =
              fixed_bounds-IsCycle cycle_minutes now now h (omega arith) in
            rw (e, f)
              (record {
                size = omega arith;
                runs = runs;
                near = near;
                early = ground (arith, early);
              })
        | inr f ↦
            let (runs, (near, early)) =
              fixed_bounds-IsCycle cycle_minutes anchor now h (ground (arith, f)) in
            rw (e, f)
              (record {
                size = omega arith;
                runs = runs;
                near = near;
                early = ground (arith, early);
              })
      ]
    ]
