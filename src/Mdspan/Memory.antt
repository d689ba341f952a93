-- ===== src/Mdspan/Memory.antt =====
-- The elements of a tensor by their offsets from its data handle, and writes to them one after
-- another.
use mathlib.Core.List.{
  foldl, map, Mem, Nodup, Nodup-cons, mem-cons_self, mem-cons_of_mem, eq-or-mem_of_mem-cons,
  mem-map_of_mem, not-mem-nil,
}
use mathlib.Core.Logic.Or
use mathlib.Core.Logic.{◌≢◌}
use uni.Prelude.{◌≡◌, refl, ap, ◌∙◌, List, [], ◌∷◌, inl, inr, if◌then◌else◌, Bool-cases}
use uni.Prelude.Int.{ℤ}
use uni.Mdspan.Vec.{Vec, nil, cons, ◌==ℤ◌, ==ℤ→≡, ==ℤ_refl}

abbrev pub first : Vec ℤ 2 → ℤ
first (cons x (cons y nil)) = x

abbrev pub second : Vec ℤ 2 → ℤ
second (cons x (cons y nil)) = y

abbrev pub Memory : Type 0 → Type 0
Memory A = ℤ → A

-- `*q = x`.
unfoldable pub store : {A : Type 0} → Memory A → ℤ → A → Memory A
store c q x r = if ◌==ℤ◌ r q then x else c r

module _ {A : Type 0} where
  store_same : (c : Memory A) (q : ℤ) (x : A) → store c q x q ≡ x
  unfolding store
  store_same c q x = rw (==ℤ_refl q) refl

  store_apart : (c : Memory A) (q r : ℤ) (x : A) → r ≢ q → store c q x r ≡ c r
  unfolding store
  store_apart c q r x n = elim (Bool-cases (◌==ℤ◌ r q)) [
    | inl h ↦ absurd (n (==ℤ→≡ r q h))
    | inr h ↦ rw h refl
  ]

  module _ {X : Type 0} (at : X → ℤ) (f : X → A → A) where
    abbrev pub write : Memory A → X → Memory A
    write c q = store c (at q) (f q (c (at q)))

    abbrev pub places : List X → List ℤ
    places qs = map at qs

    pub write_all_apart :
        (qs : List X) (c : Memory A) (r : ℤ) → ¬ Mem r (places qs) → foldl write c qs r ≡ c r
    write_all_apart [] c r n = refl
    write_all_apart (q ∷ qs) c r n =
        write_all_apart qs (write c q) r (λ m. n (mem-cons_of_mem (at q) m))
        ∙ store_apart c (at q) r (f q (c (at q))) (λ e. n (rw e mem-cons_self))

    pub write_all_at :
        IsSet A
        → (qs : List X) (c : Memory A) (q : X) → Nodup (places qs)
        → Mem q qs
        → foldl write c qs (at q) ≡ f q (c (at q))
    write_all_at is_set [] c q d m = absurd (not-mem-nil m)
    write_all_at is_set (p ∷ qs) c q d m =
        Or.elim (is_set _ _) (eq-or-mem_of_mem-cons m)
          (λ e. rw e (
            write_all_apart qs (write c p) (at p) (Nodup-cons.0 d).0
            ∙ store_same c (at p) (f p (c (at p)))))
          (λ m'.
            write_all_at is_set qs (write c p) q (Nodup-cons.0 d).1 m'
            ∙ ap (f q) (
                store_apart c (at p) (at q) (f p (c (at p)))
                  (λ e. (Nodup-cons.0 d).0 (rw (← e) (mem-map_of_mem at m')))))
