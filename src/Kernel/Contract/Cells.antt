-- ===== src/Kernel/Contract/Cells.antt =====
-- The loops of GemmLoop as a list of the cells that they work on.
use mathlib.Core.List.{foldl, foldl-append, foldl-map, append_assoc, flat_map, map}
use mathlib.Core.List.Perm
use mathlib.Core.List.{Perm, Perm-prop, Permᴰ}
use mathlib.Core.Logic.{∥∥₁_elim}
use uni.Prelude.{ℕ, zero, suc, ◌≡◌, refl, sym, ap, ◌∙◌, List, [], ◌∷◌, ◌++◌}
use uni.Prelude.Int.{ℤ, ◌+ℤ◌}
use uni.Mdspan.Vec.{Vec, nil, cons, add}
use uni.Mdspan.Strides.{ExtentStrides}
use uni.Mdspan.Visits.{steps, visits, append-perm_comm}
use uni.Kernel.Contract.{Pointers, for_each, next_m, next_n, loop_n, loop_m}
use uni.Mdspan.Memory.{first, second}

module _ {P S : Type 0} {n : ℕ} where
  pub for_each-steps :
      (at : Vec ℤ n → P) (next : P → P) (t : Vec ℤ n)
      → ((v : Vec ℤ n) → next (at v) ≡ at (add v t))
      → (body : P → S → S) (g : S → Vec ℤ n → S) (f : Vec ℤ n → List (Vec ℤ n))
      → ((v : Vec ℤ n) (s : S) → body (at v) s ≡ foldl g s (f v))
      → (e : ℕ) (v : Vec ℤ n) (s : S) → for_each e next body (at v) s ≡ foldl g s (steps e t f v)
  unfolding for_each steps
  for_each-steps at next t hn body g f hb zero v s = refl
  for_each-steps at next t hn body g f hb (suc e) v s =
      rw (hn v, foldl-append g s (f v) (steps e t f (add v t)), hb v s)
        (for_each-steps at next t hn body g f hb e (add v t) (foldl g s (f v)))

first-add : (v w : Vec ℤ 2) → first (add v w) ≡ first v +ℤ first w
unfolding add
first-add (cons x (cons y nil)) (cons z (cons u nil)) = refl

second-add : (v w : Vec ℤ 2) → second (add v w) ≡ second v +ℤ second w
unfolding add
second-add (cons x (cons y nil)) (cons z (cons u nil)) = refl

abbrev pub at_n : ℤ → Vec ℤ 2 → Pointers
at_n a v = record { a_ptr = a; b_ptr = first v; c_ptr = second v }

abbrev pub at_m : ℤ → Vec ℤ 2 → Pointers
at_m b v = record { a_ptr = first v; b_ptr = b; c_ptr = second v }

-- The cells in the order of the loops.
abbrev pub cells : List (ExtentStrides 2) → List (ExtentStrides 2) → Pointers → List Pointers
cells ms ns p =
    flat_map (λ v. map (at_n (first v)) (visits ns (cons p.b_ptr (cons (second v) nil))))
      (visits ms (cons p.a_ptr (cons p.c_ptr nil)))

next_n-add :
    (d : ExtentStrides 2) (a : ℤ) (v : Vec ℤ 2) → next_n d (at_n a v) ≡ at_n a (add v d.strides)
unfolding next_n
next_n-add d a v = cc (first-add v d.strides, second-add v d.strides)

next_m-add :
    (d : ExtentStrides 2) (b : ℤ) (v : Vec ℤ 2) → next_m d (at_m b v) ≡ at_m b (add v d.strides)
unfolding next_m
next_m-add d b v = cc (first-add v d.strides, second-add v d.strides)

module _ {S : Type 0} (body : Pointers → S → S) where
  loop_n-cells :
      (ns : List (ExtentStrides 2)) (a : ℤ) (v : Vec ℤ 2) (c : S)
      → loop_n body ns (at_n a v) c ≡ foldl (λ c w. body (at_n a w) c) c (visits ns v)
  unfolding loop_n visits
  loop_n-cells [] a v c = refl
  loop_n-cells (d ∷ ns) a v c =
      for_each-steps (at_n a) (next_n d) d.strides (next_n-add d a) (loop_n body ns)
        (λ c w. body (at_n a w) c) (visits ns) (loop_n-cells ns a) d.extent v c

  loop_m-cells :
      (ms ns : List (ExtentStrides 2)) (b : ℤ) (v : Vec ℤ 2) (c : S)
      → loop_m body ns ms (at_m b v) c ≡ foldl (λ c w. loop_n body ns (at_m b w) c) c (visits ms v)
  unfolding loop_m visits
  loop_m-cells [] ns b v c = refl
  loop_m-cells (d ∷ ms) ns b v c =
      for_each-steps (at_m b) (next_m d) d.strides (next_m-add d b) (loop_m body ns ms)
        (λ c w. loop_n body ns (at_m b w) c) (visits ms) (loop_m-cells ms ns b) d.extent v c

foldl-flat_map :
    {X Y S : Type 0} (g : S → Y → S) (h : X → List Y) (s : S) (xs : List X)
    → foldl g s (flat_map h xs) ≡ foldl (λ s x. foldl g s (h x)) s xs
unfolding flat_map
foldl-flat_map g h s [] = refl
foldl-flat_map g h s (x ∷ xs) =
    foldl-append g s (h x) (flat_map h xs) ∙ foldl-flat_map g h (foldl g s (h x)) xs

foldl_congr :
    {X S : Type 0} (g h : S → X → S)
    → ((s : S) (x : X) → g s x ≡ h s x)
    → (s : S) (xs : List X) → foldl g s xs ≡ foldl h s xs
foldl_congr g h e s [] = refl
foldl_congr g h e s (x ∷ xs) = ap (λ t. foldl g t xs) (e s x) ∙ foldl_congr g h e (h s x) xs

-- The loops over the M and N dimensions work on the cells one after another.
pub loops-cells :
    {S : Type 0} (body : Pointers → S → S) (ms ns : List (ExtentStrides 2)) (p : Pointers) (c : S)
    → loop_m body ns ms p c ≡ foldl (λ c q. body q c) c (cells ms ns p)
loops-cells body ms ns p c =
    loop_m-cells body ms ns p.b_ptr (cons p.a_ptr (cons p.c_ptr nil)) c
    ∙ foldl_congr _ _
        (λ c v.
          loop_n-cells body ns (first v) (cons p.b_ptr (cons (second v) nil)) c
          ∙ sym (foldl-map _ _ (visits ns (cons p.b_ptr (cons (second v) nil))) c))
        c (visits ms (cons p.a_ptr (cons p.c_ptr nil)))
    ∙ sym (foldl-flat_map (λ c q. body q c) _ c (visits ms (cons p.a_ptr (cons p.c_ptr nil))))

append-perm_swap : {Y : Type 0} (xs ys zs : List Y) → Perm (xs ++ (ys ++ zs)) (ys ++ (xs ++ zs))
append-perm_swap xs ys zs =
    rw (← append_assoc xs ys zs, ← append_assoc ys xs zs)
      (Perm.append_right zs (append-perm_comm xs ys))

module _ {X Y : Type 0} where
  flat_map_congr :
      {g h : X → List Y}
      → ((x : X) → Perm (g x) (h x))
      → (xs : List X) → Perm (flat_map g xs) (flat_map h xs)
  unfolding flat_map
  flat_map_congr e [] = Perm.nil
  flat_map_congr e (x ∷ xs) = Perm.append (e x) (flat_map_congr e xs)

  flat_map-Permᴰ :
      (g : X → List Y) {xs ys : List X} → Permᴰ xs ys → Perm (flat_map g xs) (flat_map g ys)
  unfolding flat_map
  flat_map-Permᴰ g Permᴰ.nil = Perm.nil
  flat_map-Permᴰ g (Permᴰ.cons {a = a} p q) =
      rw (sym p) (Perm.append_left (g a) (flat_map-Permᴰ g q))
  flat_map-Permᴰ g (Permᴰ.swap {a = a} {b = b} {l = l} p q) =
      rw (sym p, sym q) (append-perm_swap (g a) (g b) (flat_map g l))
  flat_map-Permᴰ g (Permᴰ.trans p q) = Perm.trans (flat_map-Permᴰ g p) (flat_map-Permᴰ g q)

  flat_map-perm :
      (g : X → List Y) {xs ys : List X} → Perm xs ys → Perm (flat_map g xs) (flat_map g ys)
  flat_map-perm g p = ∥∥₁_elim p Perm-prop (λ q. flat_map-Permᴰ g q)

-- Dimensions that visit the same offsets give the same cells.
pub cells-perm :
    (ms ms' ns ns' : List (ExtentStrides 2))
    → ((o : Vec ℤ 2) → Perm (visits ms o) (visits ms' o))
    → ((o : Vec ℤ 2) → Perm (visits ns o) (visits ns' o))
    → (p : Pointers) → Perm (cells ms ns p) (cells ms' ns' p)
cells-perm ms ms' ns ns' hm hn p =
    Perm.trans (flat_map-perm _ (hm (cons p.a_ptr (cons p.c_ptr nil))))
      (flat_map_congr (λ v. Perm.map (at_n (first v)) (hn (cons p.b_ptr (cons (second v) nil)))) _)
