-- ===== src/Async/Sinks/Unlink.antt =====
-- What unlink does to the lists.
use uni.Prelude.{
  ℕ, ◌≡◌, refl, ap, ◌∙◌, false, Option, none, some, if◌then◌else◌, ◌==◌, ==_iff, inl, inr,
  Bool-cases,
}
use uni.Async.Sinks.{Nodes, Sinks, put, new_node, owned_by, set_next, set_prev, unlink}
use uni.Async.Sinks.Links.{flip_test, Relinks}

set_next-next :
    (o l : Option ℕ) (nodes : Nodes) (x : ℕ)
    → (set_next o l nodes x).next ≡ (if owned_by o x then l else (nodes x).next)
unfolding set_next put
set_next-next none l nodes x = refl
set_next-next (some k) l nodes x = elim (Bool-cases (k == x)) [
  | inl q ↦ rw q refl
  | inr q ↦ rw q refl
]

set_next-prev :
    (o l : Option ℕ) (nodes : Nodes) (x : ℕ) → (set_next o l nodes x).prev ≡ (nodes x).prev
unfolding set_next put
set_next-prev none l nodes x = refl
set_next-prev (some k) l nodes x = elim (Bool-cases (k == x)) [
  | inl q ↦ rw q (ap (λ y. (nodes y).prev) ((==_iff k x).0 q))
  | inr q ↦ rw q refl
]

set_next-owner :
    (o l : Option ℕ) (nodes : Nodes) (x : ℕ) → (set_next o l nodes x).owner ≡ (nodes x).owner
unfolding set_next put
set_next-owner none l nodes x = refl
set_next-owner (some k) l nodes x = elim (Bool-cases (k == x)) [
  | inl q ↦ rw q (ap (λ y. (nodes y).owner) ((==_iff k x).0 q))
  | inr q ↦ rw q refl
]

pub set_prev-prev :
    (o l : Option ℕ) (nodes : Nodes) (x : ℕ)
    → (set_prev o l nodes x).prev ≡ (if owned_by o x then l else (nodes x).prev)
unfolding set_prev put
set_prev-prev none l nodes x = refl
set_prev-prev (some k) l nodes x = elim (Bool-cases (k == x)) [
  | inl q ↦ rw q refl
  | inr q ↦ rw q refl
]

pub set_prev-next :
    (o l : Option ℕ) (nodes : Nodes) (x : ℕ) → (set_prev o l nodes x).next ≡ (nodes x).next
unfolding set_prev put
set_prev-next none l nodes x = refl
set_prev-next (some k) l nodes x = elim (Bool-cases (k == x)) [
  | inl q ↦ rw q (ap (λ y. (nodes y).next) ((==_iff k x).0 q))
  | inr q ↦ rw q refl
]

pub set_prev-owner :
    (o l : Option ℕ) (nodes : Nodes) (x : ℕ) → (set_prev o l nodes x).owner ≡ (nodes x).owner
unfolding set_prev put
set_prev-owner none l nodes x = refl
set_prev-owner (some k) l nodes x = elim (Bool-cases (k == x)) [
  | inl q ↦ rw q (ap (λ y. (nodes y).owner) ((==_iff k x).0 q))
  | inr q ↦ rw q refl
]

pub put_apart :
    {A : Type 0} (k : ℕ) (new : A) (f : ℕ → A) (x : ℕ) → (x == k) ≡ false → put k new f x ≡ f x
unfolding put
put_apart k new f x e = rw (flip_test x k e) refl

pub unlink-Relinks :
    (promise n : ℕ) (s : Sinks)
    → owned_by (s.nodes n).prev n ≡ false
    → Relinks s.nodes
        (unlink promise n s).nodes
        n
        (s.nodes n).prev
        (s.nodes n).next
        (s.nodes n).next
        (s.nodes n).prev
unfolding unlink
unlink-Relinks promise n s e =
    let nodes = set_next (s.nodes n).prev (s.nodes n).next s.nodes in
    record {
      nexts = λ x a.
          ap (λ d. d.next) (put_apart n new_node (set_prev (nodes n).next (nodes n).prev nodes) x a)
          ∙ set_prev-next (nodes n).next (nodes n).prev nodes x
          ∙ set_next-next (s.nodes n).prev (s.nodes n).next s.nodes x;
      prevs = λ x a.
          ap (λ d. d.prev) (put_apart n new_node (set_prev (nodes n).next (nodes n).prev nodes) x a)
          ∙ set_prev-prev (nodes n).next (nodes n).prev nodes x
          ∙ rw
              (
                set_next-prev (s.nodes n).prev (s.nodes n).next s.nodes n,
                set_next-prev (s.nodes n).prev (s.nodes n).next s.nodes x,
                set_next-next (s.nodes n).prev (s.nodes n).next s.nodes n,
                e,
              )
              refl;
      owners = λ x a.
          ap (λ d. d.owner)
            (put_apart n new_node (set_prev (nodes n).next (nodes n).prev nodes) x a)
          ∙ set_prev-owner (nodes n).next (nodes n).prev nodes x
          ∙ set_next-owner (s.nodes n).prev (s.nodes n).next s.nodes x;
    }
