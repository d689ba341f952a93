-- ===== src/Async/Sinks/Link.antt =====
-- link on the lists of all promises.
use uni.Prelude.{
  ℕ, ◌≡◌, refl, sym, ap, ◌∙◌, Bool, false, none, some, List, [], ◌∷◌, ◌==◌, ==_iff, inl, inr,
  Bool-cases,
}
use uni.Async.Sinks.{Nodes, Sinks, put, owned_by, linked_node, link}
use uni.Async.Sinks.Links.{
  elem, first, Unique, Linked, IsLists, flip_test, same_test, not_elem_tail, Relinks, Linked-stays,
}
use uni.Async.Sinks.Unlink.{put_apart, set_prev-prev, set_prev-next, set_prev-owner}
use uni.Async.Sinks.Remove.{first_apart}
use uni.Async.Sinks.Steps.{put_same, foreign}

link-Relinks :
    (p n epoch : ℕ) (x : Bool) (s : Sinks)
    → Relinks s.nodes (link p n epoch x s).nodes n none (s.heads p) none (some n)
unfolding link
link-Relinks p n epoch x s =
    let nodes = put n (linked_node p (s.heads p) epoch x) s.nodes in
    record {
      nexts = λ k e.
          set_prev-next (s.heads p) (some n) nodes k ∙ ap (λ d. d.next) (put_apart n _ s.nodes k e);
      prevs = λ k e.
          set_prev-prev (s.heads p) (some n) nodes k
          ∙ rw (put_apart n (linked_node p (s.heads p) epoch x) s.nodes k e) refl;
      owners = λ k e.
          set_prev-owner (s.heads p) (some n) nodes k
          ∙ ap (λ d. d.owner) (put_apart n _ s.nodes k e);
    }

-- The list behind the new node.
Linked-behind :
    (old new : Nodes) (n : ℕ) (xs : List ℕ)
    → Relinks old new n none (first xs) none (some n)
    → Linked old none xs
    → Unique xs
    → elem n xs ≡ false
    → Linked new (some n) xs
Linked-behind old new n [] r l u e = tt
Linked-behind old new n (x ∷ xs) r l u e =
    let (a, b) = not_elem_tail n x xs e in
    (
      r.prevs x (flip_test n x a) ∙ rw (same_test x) refl,
      r.nexts x (flip_test n x a) ∙ l.1,
      Linked-stays old new n none (some x) none (some n) (some x) xs r (l.2) b tt (u.0),
    )

-- The new node in front.
new_prev :
    (s : Sinks) (p n epoch : ℕ) (x : Bool)
    → owned_by (s.heads p) n ≡ false
    → ((link p n epoch x s).nodes n).prev ≡ none
unfolding link
new_prev s p n epoch x e =
    set_prev-prev (s.heads p) (some n) (put n (linked_node p (s.heads p) epoch x) s.nodes) n
    ∙ rw (e, put_same n (linked_node p (s.heads p) epoch x) s.nodes) refl

new_next : (s : Sinks) (p n epoch : ℕ) (x : Bool) → ((link p n epoch x s).nodes n).next ≡ s.heads p
unfolding link
new_next s p n epoch x =
    set_prev-next (s.heads p) (some n) (put n (linked_node p (s.heads p) epoch x) s.nodes) n
    ∙ ap (λ d. d.next) (put_same n (linked_node p (s.heads p) epoch x) s.nodes)

new_owner : (s : Sinks) (p n epoch : ℕ) (x : Bool) → ((link p n epoch x s).nodes n).owner ≡ some p
unfolding link
new_owner s p n epoch x =
    set_prev-owner (s.heads p) (some n) (put n (linked_node p (s.heads p) epoch x) s.nodes) n
    ∙ ap (λ d. d.owner) (put_same n (linked_node p (s.heads p) epoch x) s.nodes)

link-members :
    (s : Sinks) (lists : ℕ → List ℕ) (p n epoch : ℕ) (x : Bool) (q k : ℕ)
    → IsLists s lists
    → elem n (lists q) ≡ false
    → elem k (put p (n ∷ lists p) lists q) ≡ owned_by ((link p n epoch x s).nodes k).owner q
unfolding put
link-members s lists p n epoch x q k c out = elim (Bool-cases (n == k)) [
  | inl t ↦ rw (sym ((==_iff n k).0 t)) in_front
  | inr t ↦ elim (Bool-cases (p == q)) [
    | inl d ↦
        rw (d, flip_test n k t)
          (c.members p k
            ∙ ap (owned_by (s.nodes k).owner) ((==_iff p q).0 d)
            ∙ sym
                (ap (λ o. owned_by o q) ((link-Relinks p n epoch x s).owners k (flip_test n k t))))
    | inr d ↦ rw d (
        c.members q k
        ∙ sym (ap (λ o. owned_by o q) ((link-Relinks p n epoch x s).owners k (flip_test n k t))))
  ]
]
  where
    in_front :
        elem n (put p (n ∷ lists p) lists q) ≡ owned_by ((link p n epoch x s).nodes n).owner q
    in_front = elim (Bool-cases (p == q)) [
      | inl d ↦ rw (d, same_test n) (sym (ap (λ o. owned_by o q) (new_owner s p n epoch x) ∙ d))
      | inr d ↦ rw d (out ∙ sym (ap (λ o. owned_by o q) (new_owner s p n epoch x) ∙ d))
    ]

pub link-IsLists :
    (s : Sinks) (lists : ℕ → List ℕ) (p n epoch : ℕ) (x : Bool)
    → IsLists s lists
    → (s.nodes n).owner ≡ none
    → IsLists (link p n epoch x s) (put p (n ∷ lists p) lists)
unfolding put
link-IsLists s lists p n epoch x c o =
    let r = link-Relinks p n epoch x s in
    record {
      head = λ q. elim (Bool-cases (p == q)) [
        | inl t ↦ unfold link in rw t refl
        | inr t ↦ unfold link in rw t (c.head q)
      ];
      linked = λ q. elim (Bool-cases (p == q)) [
        | inl t ↦ rw t (
          new_prev s p n epoch x (apart n (outside p)),
          new_next s p n epoch x ∙ c.head p,
          Linked-behind s.nodes (link p n epoch x s).nodes n (lists p) (rw (c.head p) at r)
              (c.linked p) (c.unique p) (outside p),
        )
        | inr t ↦ rw t (
            Linked-stays s.nodes (link p n epoch x s).nodes n none (s.heads p) none (some n) none
              (lists q) r (c.linked q) (outside q) tt (foreign s lists p q (s.heads p) c t apart))
      ];
      unique = λ q. elim (Bool-cases (p == q)) [
        | inl t ↦ rw t (outside p, c.unique p)
        | inr t ↦ rw t (c.unique q)
      ];
      members = λ q k. link-members s lists p n epoch x q k c (outside q);
    }
  where
    outside : (q : ℕ) → elem n (lists q) ≡ false
    outside q = c.members q n ∙ rw o refl

    apart : (k : ℕ) → elem k (lists p) ≡ false → owned_by (s.heads p) k ≡ false
    apart k e = ap (λ o. owned_by o k) (c.head p) ∙ first_apart k (lists p) e
