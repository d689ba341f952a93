-- ===== src/Async/Sinks/Steps.antt =====
-- unlink on the lists of all promises.
use uni.Prelude.{
  ℕ, ◌≡◌, refl, sym, ap, ◌∙◌, true, false, Option, none, some, List, ◌==◌, ==_iff, inl, inr,
  Bool-cases,
}
use uni.Async.Sinks.{Sinks, put, owned_by, head_after, unlink}
use uni.Async.Sinks.Links.{elem, remove, IsLists, Avoids, flip_test, same_test, Linked-stays}
use uni.Async.Sinks.Unlink.{unlink-Relinks}
use uni.Async.Sinks.Remove.{
  next_among, prev_among_all, prev_apart, Linked-remove, elem-remove, Unique-remove, first-remove,
}

pub put_same : {A : Type 0} (k : ℕ) (new : A) (f : ℕ → A) → put k new f k ≡ new
unfolding put
put_same k new f = rw (same_test k) refl

owner_of : (o : Option ℕ) (p : ℕ) → owned_by o p ≡ true → o ≡ some p
owner_of none p e = cc
owner_of (some k) p e = ap some ((==_iff k p).0 e)

-- A link that leads into the list of one promise leads into no other.
pub foreign :
    (s : Sinks) (lists : ℕ → List ℕ) (p q : ℕ) (o : Option ℕ)
    → IsLists s lists
    → (p == q) ≡ false
    → ((k : ℕ) → elem k (lists p) ≡ false → owned_by o k ≡ false)
    → Avoids o (lists q)
foreign s lists p q none c e f = tt
foreign s lists p q (some k) c e f = elim (Bool-cases (elem k (lists p))) [
  | inl t ↦
      c.members q k
      ∙ ap (λ o. owned_by o q) (owner_of (s.nodes k).owner p (sym (c.members p k) ∙ t))
      ∙ e
  | inr t ↦ absurd (sym (same_test k) ∙ f k t)
]
  where
    absurd : {X : Type 0} → true ≡ false → X
    absurd e = cc

abbrev pub without : ℕ → ℕ → (ℕ → List ℕ) → ℕ → List ℕ
without p n lists = put p (remove n (lists p)) lists

pub unlink-IsLists :
    (s : Sinks) (lists : ℕ → List ℕ) (p n : ℕ)
    → IsLists s lists
    → (s.nodes n).owner ≡ some p
    → IsLists (unlink p n s) (without p n lists)
unfolding put
unlink-IsLists s lists p n c o =
    let e : elem n (lists p) ≡ true = c.members p n ∙ ap (λ o. owned_by o p) o ∙ same_test p in
    let r =
      unlink-Relinks p n s (prev_apart s.nodes n none (lists p) (c.linked p) (c.unique p) tt e) in
    record {
      head = λ q. elim (Bool-cases (p == q)) [
        | inl t ↦
            unfold unlink in
            rw t (
              ap (head_after (s.nodes n).prev (s.nodes n).next) (c.head p)
              ∙ first-remove s.nodes n (lists p) (c.linked p) e)
        | inr t ↦ unfold unlink in rw t (c.head q)
      ];
      linked = λ q. elim (Bool-cases (p == q)) [
        | inl t ↦ rw t (
            Linked-remove s.nodes (unlink p n s).nodes n none (lists p) r (c.linked p) (c.unique p)
              tt e)
        | inr t ↦ rw t (
            Linked-stays s.nodes (unlink p n s).nodes n (s.nodes n).prev (s.nodes n).next
              (s.nodes n).next (s.nodes n).prev none (lists q) r (c.linked q)
              (c.members q n ∙ ap (λ o. owned_by o q) o ∙ t)
              (foreign s lists p q (s.nodes n).prev c t
                (λ k. prev_among_all s.nodes n (lists p) k (c.linked p) e))
              (foreign s lists p q (s.nodes n).next c t
                (λ k. next_among s.nodes n none (lists p) k (c.linked p) e)))
      ];
      unique = λ q. elim (Bool-cases (p == q)) [
        | inl t ↦ rw t (Unique-remove n (lists p) (c.unique p))
        | inr t ↦ rw t (c.unique q)
      ];
      members = λ q k. elim (Bool-cases (n == k)) [
        | inl t ↦ left_out q k t ∙ sym (gone q k t)
        | inr t ↦ stays q k t ∙ sym (ap (λ o. owned_by o q) (r.owners k (flip_test n k t)))
      ];
    }
  where
    left_out : (q k : ℕ) → (n == k) ≡ true → elem k (without p n lists q) ≡ false
    left_out q k t = elim (Bool-cases (p == q)) [
      | inl d ↦ rw d (elem-remove k n (lists p) (c.unique p) ∙ rw t refl)
      | inr d ↦ rw d (
          c.members q k
          ∙ ap (λ x. owned_by (s.nodes x).owner q) (sym ((==_iff n k).0 t))
          ∙ ap (λ o. owned_by o q) o
          ∙ d)
    ]

    gone : (q k : ℕ) → (n == k) ≡ true → owned_by ((unlink p n s).nodes k).owner q ≡ false
    gone q k t = unfold unlink in rw t refl

    stays :
        (q k : ℕ) → (n == k) ≡ false → elem k (without p n lists q) ≡ owned_by (s.nodes k).owner q
    stays q k t = elim (Bool-cases (p == q)) [
      | inl d ↦ rw d (
          elem-remove k n (lists p) (c.unique p)
          ∙ rw t (c.members p k ∙ ap (owned_by (s.nodes k).owner) ((==_iff p q).0 d)))
      | inr d ↦ rw d (c.members q k)
    ]
