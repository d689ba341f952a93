-- ===== src/Mdspan/Visits.antt =====
-- The offsets that nested loops over a list of dimensions visit, in order; the innermost dimension
-- is the last one. This is what the helpers of src/uni20/mdspan/iteration_plan.hpp do.
use mathlib.Core.List.{append-nil, append_assoc}
use mathlib.Core.List.Perm
use mathlib.Core.List.{Perm, Perm-prop, Permᴰ, perm_middle}
use mathlib.Core.Logic.{∥∥₁_elim}
use mathlib.Core.Path.{fun_ext}
use Prim.Native.Nat.add
use native.Mathlib.Nat.{zero-add, zero-mul, suc-mul, add_comm}
use native.Mathlib.Numerals.{add-one}
use uni.Prelude.{ℕ, zero, suc, ◌+◌, ◌*◌, ◌≡◌, refl, sym, ap, ◌∙◌, List, [], ◌∷◌, ◌++◌}
use uni.Prelude.Int.{ℤ}
use uni.Mdspan.Vec.{
  Vec, add, scale, negate, add_right_comm, add-scale-suc, add-scale-zero, add-scale-negate,
}
use uni.Mdspan.Strides.{ExtentStrides}

-- `for (i = 0; i < e; ++i) { body(offsets); offsets += strides; }`
unfoldable pub steps : {n : ℕ} → ℕ → Vec ℤ n → (Vec ℤ n → List (Vec ℤ n)) → Vec ℤ n → List (Vec ℤ n)
steps zero s body o = []
steps (suc e) s body o = body o ++ steps e s body (add o s)

unfoldable pub visits : {n : ℕ} → List (ExtentStrides n) → Vec ℤ n → List (Vec ℤ n)
visits [] o = o ∷ []
visits (d ∷ ds) o = steps d.extent d.strides (visits ds) o

pub append-perm_comm : {A : Type 0} (xs ys : List A) → Perm (xs ++ ys) (ys ++ xs)
append-perm_comm [] ys = rw (append-nil ys) (Perm.refl ys)
append-perm_comm (x ∷ xs) ys =
    Perm.trans (Perm.cons x (append-perm_comm xs ys)) (Perm.symm (perm_middle ys xs))

pub append-perm_middle :
    {A : Type 0} (ws xs ys zs : List A) → Perm ((ws ++ xs) ++ (ys ++ zs)) ((ws ++ ys) ++ (xs ++ zs))
append-perm_middle ws xs ys zs =
    rw
      (
        append_assoc ws xs (ys ++ zs),
        append_assoc ws ys (xs ++ zs),
        ← append_assoc xs ys zs,
        ← append_assoc ys xs zs,
      )
      (Perm.append_left ws (Perm.append_right zs (append-perm_comm xs ys)))

module _ {n : ℕ} where
  steps-add :
      (a b : ℕ) (s : Vec ℤ n) (f : Vec ℤ n → List (Vec ℤ n)) (o : Vec ℤ n)
      → steps (a + b) s f o ≡ steps a s f o ++ steps b s f (add o (scale s a))
  unfolding steps
  steps-add zero b s f o = rw (zero-add, add-scale-zero)
  steps-add (suc a) b s f o =
      rw (add.suc a b, add-scale-suc o s a, append_assoc)
        (ap (◌++◌ (f o)) (steps-add a b s f (add o s)))

  pub steps-nil : (b : ℕ) (t o : Vec ℤ n) → steps b t (λ o. []) o ≡ []
  unfolding steps
  steps-nil zero t o = refl
  steps-nil (suc b) t o = steps-nil b t (add o t)

  pub steps_shift :
      (b : ℕ) (s t : Vec ℤ n) (g : Vec ℤ n → List (Vec ℤ n)) (o : Vec ℤ n)
      → steps b t (λ o. g (add o s)) o ≡ steps b t g (add o s)
  unfolding steps
  steps_shift zero s t g o = refl
  steps_shift (suc b) s t g o =
      ap (◌++◌ (g (add o s)))
        (steps_shift b s t g (add o t) ∙ ap (steps b t g) (add_right_comm o t s))

  steps-append :
      (b : ℕ) (t : Vec ℤ n) (f g : Vec ℤ n → List (Vec ℤ n)) (o : Vec ℤ n)
      → Perm (steps b t (λ o. f o ++ g o) o) (steps b t f o ++ steps b t g o)
  unfolding steps
  steps-append zero t f g o = Perm.nil
  steps-append (suc b) t f g o =
      Perm.trans (Perm.append_left (f o ++ g o) (steps-append b t f g (add o t)))
        (append-perm_middle (f o) (g o) (steps b t f (add o t)) (steps b t g (add o t)))

  pub steps_congr :
      (b : ℕ) (t : Vec ℤ n) {f g : Vec ℤ n → List (Vec ℤ n)}
      → ((o : Vec ℤ n) → Perm (f o) (g o))
      → (o : Vec ℤ n) → Perm (steps b t f o) (steps b t g o)
  unfolding steps
  steps_congr zero t h o = Perm.nil
  steps_congr (suc b) t h o = Perm.append (h o) (steps_congr b t h (add o t))

  -- The order of two loops does not matter.
  pub steps-perm_swap :
      (a b : ℕ) (s t : Vec ℤ n) (f : Vec ℤ n → List (Vec ℤ n)) (o : Vec ℤ n)
      → Perm (steps a s (steps b t f) o) (steps b t (steps a s f) o)
  unfolding steps
  steps-perm_swap zero b s t f o = rw (steps-nil b t o) Perm.nil
  steps-perm_swap (suc a) b s t f o =
      Perm.trans (Perm.append_left (steps b t f o) (steps-perm_swap a b s t f (add o s))) (
        rw (← steps_shift b s t (steps a s f) o)
          (Perm.symm (steps-append b t f (λ o. steps a s f (add o s)) o)))

  -- Two loops over contiguous dimensions are one.
  pub steps-mul :
      (a b : ℕ) (t : Vec ℤ n) (f : Vec ℤ n → List (Vec ℤ n)) (o : Vec ℤ n)
      → steps (a * b) t f o ≡ steps a (scale t b) (steps b t f) o
  unfolding steps
  steps-mul zero b t f o = rw zero-mul
  steps-mul (suc a) b t f o =
      rw (suc-mul a b, add_comm (a * b) b, steps-add b (a * b) t f o)
        (ap (◌++◌ (steps b t f o)) (steps-mul a b t f (add o (scale t b))))

  steps_last :
      (a : ℕ) (s : Vec ℤ n) (f : Vec ℤ n → List (Vec ℤ n)) (o : Vec ℤ n)
      → steps (suc a) s f o ≡ steps a s f o ++ f (add o (scale s a))
  unfolding steps
  steps_last a s f o =
      ap (λ k. steps k s f o) (sym (add-one a))
      ∙ steps-add a 1 s f o
      ∙ ap (◌++◌ (steps a s f o)) (append-nil (f (add o (scale s a))))

  steps-suc :
      (a : ℕ) (s : Vec ℤ n) (f : Vec ℤ n → List (Vec ℤ n)) (o : Vec ℤ n)
      → steps (suc a) s f o ≡ f o ++ steps a s f (add o s)
  unfolding steps
  steps-suc a s f o = refl

  -- Backwards from the last offset.
  pub steps-perm_negate :
      (a : ℕ) (s : Vec ℤ n) (f : Vec ℤ n → List (Vec ℤ n)) (o : Vec ℤ n)
      → Perm (steps (suc a) (negate s) f (add o (scale s a))) (steps (suc a) s f o)
  steps-perm_negate zero s f o =
      rw (steps-suc 0 (negate s) f (add o (scale s 0)), steps-suc 0 s f o, add-scale-zero o s)
        (unfold steps in Perm.refl (f o ++ []))
  steps-perm_negate (suc a) s f o =
      rw
        (
          steps-suc (suc a) (negate s) f (add o (scale s (suc a))),
          steps_last (suc a) s f o,
          add-scale-negate o s a,
        )
        (Perm.trans (Perm.append_left (f (add o (scale s (suc a)))) (steps-perm_negate a s f o))
          (append-perm_comm (f (add o (scale s (suc a)))) (steps (suc a) s f o)))

module _ {n : ℕ} where
  pub visits_congr :
      (d : ExtentStrides n) (ds es : List (ExtentStrides n))
      → ((o : Vec ℤ n) → Perm (visits ds o) (visits es o))
      → (o : Vec ℤ n) → Perm (visits (d ∷ ds) o) (visits (d ∷ es) o)
  unfolding visits
  visits_congr d ds es h = steps_congr d.extent d.strides h

  pub visits_cong_eq :
      (d : ExtentStrides n) (ds es : List (ExtentStrides n))
      → ((o : Vec ℤ n) → visits ds o ≡ visits es o)
      → (o : Vec ℤ n) → visits (d ∷ ds) o ≡ visits (d ∷ es) o
  unfolding visits
  visits_cong_eq d ds es h o = ap (λ f. steps d.extent d.strides f o) (fun_ext h)

  pub visits_swap :
      (d e : ExtentStrides n) (ds : List (ExtentStrides n)) (o : Vec ℤ n)
      → Perm (visits (d ∷ e ∷ ds) o) (visits (e ∷ d ∷ ds) o)
  unfolding visits
  visits_swap d e ds o = steps-perm_swap d.extent e.extent d.strides e.strides (visits ds) o

  visits-Permᴰ :
      {ds es : List (ExtentStrides n)}
      → Permᴰ ds es
      → (o : Vec ℤ n) → Perm (visits ds o) (visits es o)
  visits-Permᴰ Permᴰ.nil o = Perm.rfl
  visits-Permᴰ (Permᴰ.cons {a = a} {l₁ = l₁} {l₂ = l₂} p q) o =
      Perm.trans (visits_congr a l₁ l₂ (visits-Permᴰ q) o) (rw p Perm.rfl)
  visits-Permᴰ (Permᴰ.swap {a = a} {b = b} {l = l} p q) o =
      Perm.trans (visits_swap a b l o) (rw (p, q) Perm.rfl)
  visits-Permᴰ (Permᴰ.trans p q) o = Perm.trans (visits-Permᴰ p o) (visits-Permᴰ q o)

  -- The order of the dimensions does not matter.
  pub visits-perm :
      {ds es : List (ExtentStrides n)}
      → Perm ds es
      → (o : Vec ℤ n) → Perm (visits ds o) (visits es o)
  visits-perm p o = ∥∥₁_elim p Perm-prop (λ q. visits-Permᴰ q o)
