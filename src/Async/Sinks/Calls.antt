-- ===== src/Async/Sinks/Calls.antt =====
-- The calls of promises and buffers on the lists.
use uni.Prelude.{
  ℕ, ◌≡◌, refl, sym, ap, ◌∙◌, Bool, false, ◌&&◌, Option, none, some, List, [], ◌∷◌, ◌==◌, ==_iff,
  inl, inr, Bool-cases,
}
use uni.Prelude.Outcome.{Outcome, ◌>>=◌}
use uni.Async.Sinks.{
  Sinks, put, owned_by, unlink, unregister_exception_sink, unregister_from, link_if,
  register_exception_sink, register_from, copy_exception_sink_from, move_exception_sink_from,
  assign_sink,
}
use uni.Async.Sinks.Links.{elem, remove, IsLists, same_test, not_elem_tail}
use uni.Async.Sinks.Steps.{without, unlink-IsLists}
use uni.Async.Sinks.Link.{link-IsLists}

remove_absent : (n : ℕ) (xs : List ℕ) → elem n xs ≡ false → remove n xs ≡ xs
remove_absent n [] e = refl
remove_absent n (x ∷ xs) e =
    let (a, b) = not_elem_tail n x xs e in rw a (ap (λ ys. x ∷ ys) (remove_absent n xs b))

same-IsLists :
    (s : Sinks) (lists others : ℕ → List ℕ)
    → IsLists s lists
    → ((q : ℕ) → lists q ≡ others q)
    → IsLists s others
same-IsLists s lists others c e = record {
  head = λ q. rw (e q) at (c.head q);
  linked = λ q. rw (e q) at (c.linked q);
  unique = λ q. rw (e q) at (c.unique q);
  members = λ q n. rw (e q) at (c.members q n);
}

-- The lists without a node.
abbrev pub drop_node : ℕ → (ℕ → List ℕ) → ℕ → List ℕ
drop_node n lists q = remove n (lists q)

-- The lists with a node in front for one promise, when there is an epoch.
abbrev pub listed : ℕ → ℕ → Option ℕ → (ℕ → List ℕ) → ℕ → List ℕ
listed p n none lists = drop_node n lists
listed p n (some epoch) lists = put p (n ∷ remove n (lists p)) (drop_node n lists)

unlinked-IsLists :
    (s : Sinks) (lists : ℕ → List ℕ) (p n : ℕ)
    → IsLists s lists
    → (s.nodes n).owner ≡ some p
    → IsLists (unlink p n s) (drop_node n lists)
unlinked-IsLists s lists p n c o =
    same-IsLists (unlink p n s) (without p n lists) (drop_node n lists)
      (unlink-IsLists s lists p n c o) (λ q. same q)
  where
    same : (q : ℕ) → without p n lists q ≡ drop_node n lists q
    same q =
        unfold put in
        elim (Bool-cases (p == q)) [
          | inl t ↦ rw t (ap (λ x. remove n (lists x)) ((==_iff p q).0 t))
          | inr t ↦
              rw t (sym (remove_absent n (lists q) (c.members q n ∙ ap (λ o. owned_by o q) o ∙ t)))
        ]

unlinked_owner : (p n : ℕ) (s : Sinks) → ((unlink p n s).nodes n).owner ≡ none
unfolding unlink put
unlinked_owner p n s = rw (same_test n) refl

absent-IsLists :
    (s : Sinks) (lists : ℕ → List ℕ) (n : ℕ)
    → IsLists s lists
    → (s.nodes n).owner ≡ none
    → IsLists s (drop_node n lists)
absent-IsLists s lists n c o =
    same-IsLists s lists (drop_node n lists) c
      (λ q. sym (remove_absent n (lists q) (c.members q n ∙ ap (λ x. owned_by x q) o)))

-- The outcome of a call that may be refused.
pub Drops : ℕ → (ℕ → List ℕ) → Outcome Sinks → Type 0
Drops n lists (Outcome.done s) = IsLists s (drop_node n lists) × ((s.nodes n).owner ≡ none)
Drops n lists Outcome.refused = Unit
Drops n lists Outcome.fault = ⊥

unregister_from-Drops :
    (u : Bool) (n : ℕ) (d : Bool) (s : Sinks) (lists : ℕ → List ℕ) (o : Option ℕ)
    → IsLists s lists
    → (s.nodes n).owner ≡ o
    → Drops n lists (unregister_from u o n d s)
unfolding Drops unregister_exception_sink
unregister_from-Drops u n d s lists none c o = (absent-IsLists s lists n c o, o)
unregister_from-Drops u n d s lists (some p) c o =
    elim (Bool-cases (d && ((s.nodes n).explicit_sink && u))) [
      | inl t ↦ rw (o, same_test p, t) tt
      | inr t ↦ rw (o, same_test p, t) (unlinked-IsLists s lists p n c o, unlinked_owner p n s)
    ]

-- Outside a destructor nothing is refused.
unregister_from_done :
    (u : Bool) (n : ℕ) (s : Sinks) (lists : ℕ → List ℕ) (o : Option ℕ)
    → IsLists s lists
    → (s.nodes n).owner ≡ o
    → (s' : Sinks) × (unregister_from u o n false s ≡ Outcome.done s')
      × IsLists s' (drop_node n lists)
      × ((s'.nodes n).owner ≡ none)
unfolding unregister_exception_sink
unregister_from_done u n s lists none c o = (s, refl, absent-IsLists s lists n c o, o)
unregister_from_done u n s lists (some p) c o =
    (unlink p n s, rw (o, same_test p) refl, unlinked-IsLists s lists p n c o, unlinked_owner p n s)

link_if-IsLists :
    (p n : ℕ) (epoch : Option ℕ) (x : Bool) (s : Sinks) (lists : ℕ → List ℕ)
    → IsLists s (drop_node n lists)
    → (s.nodes n).owner ≡ none
    → IsLists (link_if p n epoch x s) (listed p n epoch lists)
link_if-IsLists p n none x s lists c o = c
link_if-IsLists p n (some epoch) x s lists c o = link-IsLists s (drop_node n lists) p n epoch x c o

-- For lists of sinks as the links make them, register_exception_sink is not refused, takes the node out
-- of the list it was in, and, when there is an epoch, puts it in front of the list of the promise; the
-- other nodes keep their order.
pub register_exception_sink-IsLists :
    (unwinding : Bool) (promise n : ℕ) (epoch : Option ℕ) (explicit_sink : Bool) (s : Sinks)
    (lists : ℕ → List ℕ)
    → IsLists s lists
    → (s' : Sinks) × (register_exception_sink unwinding promise n epoch explicit_sink s
        ≡ Outcome.done s')
      × IsLists s' (listed promise n epoch lists)
unfolding register_exception_sink
register_exception_sink-IsLists unwinding promise n epoch explicit_sink s lists c =
    let (s', e, d, o) = unregister_from_done unwinding n s lists (s.nodes n).owner c refl in
    (
      link_if promise n epoch explicit_sink s',
      rw e refl,
      link_if-IsLists promise n epoch explicit_sink s' lists d o,
    )

-- The outcome is no fault, and the links of a state reached make lists.
abbrev pub Sound : Outcome Sinks → Type 0
Sound (Outcome.done s) = (lists : ℕ → List ℕ) × IsLists s lists
Sound Outcome.refused = Unit
Sound Outcome.fault = ⊥

Drops-bind :
    (n : ℕ) (lists : ℕ → List ℕ) (m : Outcome Sinks) (f : Sinks → Outcome Sinks)
    → Drops n lists m
    → ((s : Sinks) → IsLists s (drop_node n lists) → Sound (f s))
    → Sound (m >>= f)
unfolding Drops
Drops-bind n lists (Outcome.done s) f d g = g s (d.0)
Drops-bind n lists Outcome.refused f d g = tt
Drops-bind n lists Outcome.fault f d g = d

pub unregister_from-Sound :
    (u : Bool) (n : ℕ) (d : Bool) (s : Sinks) (lists : ℕ → List ℕ)
    → IsLists s lists
    → Sound (unregister_from u (s.nodes n).owner n d s)
unregister_from-Sound u n d s lists c =
    weaken (unregister_from u (s.nodes n).owner n d s)
      (unregister_from-Drops u n d s lists (s.nodes n).owner c refl)
  where
    weaken : (m : Outcome Sinks) → Drops n lists m → Sound m
    weaken (Outcome.done s) k = unfold Drops in (drop_node n lists, k.0)
    weaken Outcome.refused k = tt
    weaken Outcome.fault k = unfold Drops in k

pub register-Sound :
    (u : Bool) (p n : ℕ) (epoch : Option ℕ) (x : Bool) (s : Sinks) (lists : ℕ → List ℕ)
    → IsLists s lists
    → Sound (register_exception_sink u p n epoch x s)
register-Sound u p n epoch x s lists c =
    let (s', e, d) = register_exception_sink-IsLists u p n epoch x s lists c in
    rw e (listed p n epoch lists, d)

register_from-Sound :
    (u : Bool) (o : Option ℕ) (n : ℕ) (epoch : Option ℕ) (x : Bool) (s : Sinks) (lists : ℕ → List ℕ)
    → IsLists s lists
    → Sound (register_from u o n epoch x s)
register_from-Sound u none n epoch x s lists c = (lists, c)
register_from-Sound u (some p) n epoch x s lists c = register-Sound u p n epoch x s lists c

pub copy_exception_sink_from-Sound :
    (u : Bool) (this other : ℕ) (s : Sinks) (lists : ℕ → List ℕ)
    → IsLists s lists
    → Sound (copy_exception_sink_from u this other s)
unfolding copy_exception_sink_from
copy_exception_sink_from-Sound u this other s lists c = register_from-Sound u _ this _ _ s lists c

pub move_exception_sink_from-Sound :
    (u : Bool) (this other : ℕ) (s : Sinks) (lists : ℕ → List ℕ)
    → IsLists s lists
    → Sound (move_exception_sink_from u this other s)
unfolding move_exception_sink_from
move_exception_sink_from-Sound u this other s lists c =
    Drops-bind other lists _ _
      (unregister_from-Drops u other false s lists (s.nodes other).owner c refl)
      (λ s' d. register_from-Sound u (s.nodes other).owner this _ _ s' (drop_node other lists) d)

pub assign_sink-Sound :
    (u : Bool) (this other : ℕ) (s : Sinks) (lists : ℕ → List ℕ)
    → IsLists s lists
    → Sound (assign_sink u this other s)
unfolding assign_sink
assign_sink-Sound u this other s lists c = elim (Bool-cases (this == other)) [
  | inl q ↦ rw q (lists, c)
  | inr q ↦ rw q (
      Drops-bind this lists _ _
        (unregister_from-Drops u this false s lists (s.nodes this).owner c refl)
        (λ s' d. move_exception_sink_from-Sound u this other s' (drop_node this lists) d))
]
