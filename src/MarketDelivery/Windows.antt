-- ===== src/MarketDelivery/Windows.antt =====
-- internal/store/market_delivery.go: marketWindowBounds. The schema has only positive cycles.
use de_box_asset_alert.Prelude.{
  ℕ, ◌+◌, ◌-◌, ◌*◌, ◌/◌, ◌≤◌, ◌<◌, String, ◌⊎◌, inl, inr, ◌≡◌, refl, Option, none, some, str_eq,
  ltb, arith, Bool-cases, if◌then◌else◌,
}
use native.Mathlib.Nat.{div-add-mod, mod-lt}

-- A window from the anchor on, in steps of the duration.
unfoldable pub fixed_bounds : ℕ → ℕ → ℕ → ℕ × ℕ
fixed_bounds anchor duration now =
    let start = anchor + (now - anchor) / duration * duration in
    if ltb now anchor then (anchor, anchor + duration) else (start, start + duration)

unfoldable pub market_window_bounds : String → ℕ → Option ℕ → ℕ → ℕ × ℕ
unfolding fixed_bounds
market_window_bounds cycle_type cycle_minutes none now = (now, now + cycle_minutes * 60)
market_window_bounds cycle_type cycle_minutes (some anchor) now =
    if str_eq cycle_type "fixed"
    then fixed_bounds anchor (cycle_minutes * 60) now
    else (now, now + cycle_minutes * 60)

-- The window that the moment lies in: as long as the cycle, not over yet, begun unless it begins at an
-- anchor in the future, and at the anchor or whole cycles after it if it has one.
abbrev pub IsWindow : ℕ → ℕ → ℕ → ℕ × ℕ → Type 0
IsWindow anchor duration now bounds =
    (bounds.1 ≡ bounds.0 + duration)
    × ((now < bounds.1)
        × (((bounds.0 ≤ now) ⊎ (bounds.0 ≡ anchor))
            × ((k : ℕ) × (bounds.0 ≡ anchor + k * duration))))

pub whole_steps : (x d : ℕ) → 0 < d → (x / d * d ≤ x) × (x < x / d * d + d)
whole_steps x d h = (omega (arith, div-add-mod x d), omega (arith, div-add-mod x d, mod-lt x h))

-- A fixed cycle of one minute or more with an anchor gives the window that the moment lies in, of the
-- windows that follow one another from the anchor on; before the anchor it is the first one.
pub market_window_bounds-IsWindow :
    (cycle_minutes anchor now : ℕ)
    → 0 < cycle_minutes
    → IsWindow anchor
        (cycle_minutes * 60)
        now
        (market_window_bounds "fixed" cycle_minutes (some anchor) now)
unfolding market_window_bounds
market_window_bounds-IsWindow cycle_minutes anchor now h = elim (Bool-cases (ltb now anchor)) [
  | inl e ↦ rw e (refl, (ground arith, (inr refl, (0, omega arith))))
  | inr e ↦ rw e (
      let w = whole_steps (now - anchor) (cycle_minutes * 60) (omega (arith, h)) in
      (
        refl,
        (
          ground (arith, w.1),
          (inl (ground (arith, w.0)), ((now - anchor) / (cycle_minutes * 60), refl)),
        ),
      ))
]
