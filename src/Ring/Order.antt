-- ===== src/Ring/Order.antt =====
-- Positions of the ring of include/mpsc_ring.hpp: windows of slots, and writes in and outside them.
use native.Mathlib.Nat.{div-add-mod, mul-le-mul_left}
use native.Mathlib.Decide.{dec_le}
use xredis_client.Base.{
  ℕ, zero, suc, ◌+◌, ◌-◌, ◌*◌, ◌/◌, ◌%◌, ◌≤◌, ◌<◌, [], ◌∷◌, ◌++◌, ◌==◌, false, ◌≡◌, ◌≢◌, refl, sym,
  ap, ap₂, subst, take, drop, length, ◌∙◌, arith,
}
use xredis_client.Ring.{Slot, Ring, slot_at, window, write_slot}

le_of_not_lt : {a b : ℕ} → ¬ (suc a ≤ b) → b ≤ a
le_of_not_lt h = omega arith

multiples : (a b c r : ℕ) → c * a + r < c * b + r → c * b + r < c * a + r + c → ⊥
multiples a b c r h k = elim (dec_le (suc a) b) [
  | yes p ↦ omega (arith, mul-le-mul_left c p)
  | no p ↦ omega (arith, mul-le-mul_left c (le_of_not_lt p))
]

pub mod_ne : (cap i t : ℕ) → i < t → t < i + cap → i % cap ≢ t % cap
mod_ne cap i t h k e =
    multiples (i / cap) (t / cap) cap (t % cap)
      (omega (arith, div-add-mod i cap, div-add-mod t cap, e))
      (omega (arith, div-add-mod i cap, div-add-mod t cap, e))

module _ (cap : ℕ) where
  pub length-window : (r : Ring) (i n : ℕ) → length (window cap r i n) ≡ n
  length-window r i zero = refl
  length-window r i (suc n) = ap suc (length-window r (i + 1) n)

  -- A write outside a window does not change it.
  pub window-write :
      (r : Ring) (i t n : ℕ) (s : Slot)
      → i + n ≤ t
      → t < i + cap
      → window cap (write_slot r (t % cap) s) i n ≡ window cap r i n
  unfolding write_slot
  window-write r i t zero s h k = refl
  window-write r i t (suc n) s h k =
      let ne : (i % cap == t % cap) ≡ false =
        ground (arith, mod_ne cap i t (omega arith) (omega arith)) in
      rw ne (ap (◌∷◌ (slot_at cap r i)) (window-write r (i + 1) t n s (omega arith) (omega arith)))

  pub window-snoc :
      (r : Ring) (i n : ℕ)
      → window cap r i (suc n) ≡ window cap r i n ++ (slot_at cap r (i + n) ∷ [])
  window-snoc r i zero = let e : i + 0 ≡ i = omega arith in rw e refl
  window-snoc r i (suc n) =
      let e : i + suc n ≡ i + 1 + n = omega arith in
      rw e (ap (◌∷◌ (slot_at cap r i)) (window-snoc r (i + 1) n))

  -- The slot written at the end of a window extends it.
  pub window-write_end :
      (r : Ring) (i n : ℕ) (s : Slot)
      → n < cap
      → window cap (write_slot r ((i + n) % cap) s) i (suc n) ≡ window cap r i n ++ (s ∷ [])
  window-write_end r i n s h =
      window-snoc (write_slot r ((i + n) % cap) s) i n
      ∙ ap₂ ◌++◌ (window-write r i (i + n) n s (omega arith) (omega arith)) written
    where
      written : slot_at cap (write_slot r ((i + n) % cap) s) (i + n) ∷ [] ≡ s ∷ []
      written = unfold write_slot in ground arith

  -- The same with the position written out.
  pub window-push :
      (r : Ring) (i t : ℕ) (s : Slot)
      → i ≤ t
      → t < i + cap
      → window cap (write_slot r (t % cap) s) i (t + 1 - i) ≡ window cap r i (t - i) ++ (s ∷ [])
  window-push r i t s h k =
      let e : t + 1 - i ≡ suc (t - i) = omega arith in
      let e' : t ≡ i + (t - i) = omega arith in
      rw e (
        subst
          (λ (j : ℕ).
            window cap (write_slot r (j % cap) s) i (suc (t - i))
            ≡ window cap r i (t - i) ++ (s ∷ []))
          (sym e') (window-write_end r i (t - i) s (omega arith)))

  -- The first slot of a window.
  pub window-pop :
      (r : Ring) (i t : ℕ)
      → i < t
      → window cap r i (t - i) ≡ slot_at cap r i ∷ window cap r (i + 1) (t - (i + 1))
  window-pop r i t h = let e : t - i ≡ suc (t - (i + 1)) = omega arith in rw e refl

  pub window-take-drop :
      (r : Ring) (i n k : ℕ)
      → k ≤ n
      → (window cap r i k ≡ take k (window cap r i n))
        × (window cap r (i + k) (n - k) ≡ drop k (window cap r i n))
  window-take-drop r i n zero h =
      let e : i + 0 ≡ i = omega arith in let e' : n - 0 ≡ n = omega arith in (refl, rw (e, e') refl)
  window-take-drop r i zero (suc k) h = absurd (omega arith)
  window-take-drop r i (suc n) (suc k) h =
      let (p, q) = window-take-drop r (i + 1) n k (omega arith) in
      let e : i + suc k ≡ i + 1 + k = omega arith in
      let e' : suc n - suc k ≡ n - k = omega arith in (ap (◌∷◌ (slot_at cap r i)) p, rw (e, e') q)
