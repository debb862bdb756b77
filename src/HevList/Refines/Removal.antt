-- ===== src/HevList/Refines/Removal.antt =====
-- misc/hev-list.c: taking a node out, and the loop over all nodes.
use gen_net.Base.{
  ℕ, zero, suc, ◌≤◌, ◌≡◌, refl, sym, subst, ◌∙◌, Option, none, some, List, [], ◌∷◌, ◌++◌, arith,
  append-nil, Bool-cases, inl, inr, ◌==◌, length,
}
use gen_net.HevList.{HevList, update, past_node, back_past, list_del, prepend, nodes}
use gen_net.HevList.Linked.{
  front, back, Linked, NotIn, Distinct, Linked-append, Linked-split, Linked-next, Linked-prev,
  Linked-last, Linked-first, back-append,
}
use gen_net.HevList.Refines.{Represents, back-some, NotIn-append}

NotIn-split : (k : ℕ) (xs ys : List ℕ) → NotIn k (xs ++ ys) → NotIn k xs × NotIn k ys
NotIn-split k [] ys h = (tt, h)
NotIn-split k (x ∷ xs) ys h = let (a, b) = NotIn-split k xs ys h.1 in ((h.0, a), b)

Distinct-split : (xs ys : List ℕ) → Distinct (xs ++ ys) → Distinct xs × Distinct ys
Distinct-split [] ys d = (tt, d)
Distinct-split (x ∷ xs) ys d =
    let (a, b) = Distinct-split xs ys d.1 in (((NotIn-split x xs ys d.0).0, a), b)

Distinct-del : (n : ℕ) (xs ys : List ℕ) → Distinct (xs ++ n ∷ ys) → Distinct (xs ++ ys)
Distinct-del n [] ys d = d.1
Distinct-del n (x ∷ xs) ys d =
    let (a, b) = NotIn-split x xs (n ∷ ys) d.0 in
    (NotIn-append x xs ys a b.1, Distinct-del n xs ys d.1)

last-NotIn :
    (x t : ℕ) (xs zs : List ℕ) → back (some x) xs ≡ some t → Distinct ((x ∷ xs) ++ zs) → NotIn t zs
last-NotIn x t [] zs e d = let e' : x ≡ t = ground arith in subst (λ k. NotIn k zs) e' d.0
last-NotIn x t (y ∷ xs) zs e d = last-NotIn y t xs zs e d.1

first-NotIn : (y : ℕ) (xs zs : List ℕ) → Distinct (xs ++ y ∷ zs) → NotIn y xs
first-NotIn y [] zs d = tt
first-NotIn y (x ∷ xs) zs d =
    let (a, b) = NotIn-split x xs (y ∷ zs) d.0 in ((λ e. b.0 (sym e)), first-NotIn y xs zs d.1)

-- both neighbours are read prepend they change
list_del-at :
    (l : HevList) (n : ℕ) (p q : Option ℕ)
    → l.prev n ≡ p
    → l.next n ≡ q
    → list_del n l ≡ back_past q p (past_node p q l)
unfolding list_del past_node
list_del-at l n none q e f = simp (e, f)
list_del-at l n (some p) q e f = elim (Bool-cases (p == n)) [
  | inl b ↦ simp (e, f, b)
  | inr b ↦ simp (e, f, b)
]

module _ (l : HevList) (n : ℕ) where
  del_only : Represents l (n ∷ []) → Represents (back_past none none (past_node none none l)) []
  unfolding back_past past_node
  del_only r = record { head = refl; tail = refl; linked = tt; distinct = tt }

  del_head :
      (y : ℕ) (ys : List ℕ)
      → Represents l (n ∷ y ∷ ys)
      → Represents (back_past (some y) none (past_node none (some y) l)) (y ∷ ys)
  unfolding back_past past_node
  del_head y ys r = record {
    head = refl;
    tail = r.tail;
    linked = Linked-first l.next l.prev y none (some n) none ys r.distinct.1.0 r.linked.1.1;
    distinct = r.distinct.1;
  }

  module _ (x t : ℕ) (xs : List ℕ) (e : back (some x) xs ≡ some t) where
    del_last :
        Represents l ((x ∷ xs) ++ n ∷ [])
        → Represents (back_past none (some t) (past_node (some t) none l)) (x ∷ xs)
    unfolding back_past past_node
    del_last r =
        let (a, b) = Linked-split l.next l.prev none none (x ∷ xs) (n ∷ []) r.linked in
        let (d, d') = Distinct-split (x ∷ xs) (n ∷ []) r.distinct in
        record {
          head = r.head;
          tail = sym e;
          linked = Linked-last l.next l.prev t x none none (some n) xs e d a;
          distinct = d;
        }

    del_inner :
        (y : ℕ) (ys : List ℕ)
        → Represents l ((x ∷ xs) ++ n ∷ y ∷ ys)
        → Represents
            (back_past (some y) (some t) (past_node (some t) (some y) l))
            ((x ∷ xs) ++ y ∷ ys)
    unfolding back_past past_node
    del_inner y ys r =
        let (a, b) = Linked-split l.next l.prev none none (x ∷ xs) (n ∷ y ∷ ys) r.linked in
        let (d, d') = Distinct-split (x ∷ xs) (n ∷ y ∷ ys) r.distinct in
        let both = Distinct-del n (x ∷ xs) (y ∷ ys) r.distinct in
        let next' = update l.next t (some y) in
        let prev' = update l.prev y (some t) in
        let left =
          Linked-prev next' l.prev y (some t) none (some y) (x ∷ xs)
            (first-NotIn y (x ∷ xs) ys both)
            (Linked-last l.next l.prev t x (some y) none (some n) xs e d a) in
        let right = Linked-first next' l.prev y (some t) (some n) none ys d'.1.0 (
          Linked-next l.next l.prev t (some y) (some n) none (y ∷ ys)
            (last-NotIn x t xs (y ∷ ys) e both) b.1.1) in
        record {
          head = r.head;
          tail =
              r.tail
              ∙ back-append none (x ∷ xs) (n ∷ y ∷ ys)
              ∙ sym (back-append none (x ∷ xs) (y ∷ ys));
          linked =
              Linked-append next' prev' none none (x ∷ xs) (y ∷ ys) left
                (subst (λ o. Linked next' prev' o (y ∷ ys) none) (sym e) right);
          distinct = both;
        }

-- Taking a node out leaves the others, in order.
pub list_del-Represents :
    (l : HevList) (n : ℕ) (xs ys : List ℕ)
    → Represents l (xs ++ n ∷ ys)
    → Represents (list_del n l) (xs ++ ys)
list_del-Represents l n [] [] r =
    rw (list_del-at l n none none r.linked.0 r.linked.1.0) (del_only l n r)
list_del-Represents l n [] (y ∷ ys) r =
    rw (list_del-at l n none (some y) r.linked.0 r.linked.1.0) (del_head l n y ys r)
list_del-Represents l n (x ∷ xs) [] r =
    let (t, e) = back-some x xs in
    let (a, b) = Linked-split l.next l.prev none none (x ∷ xs) (n ∷ []) r.linked in
    rw (append-nil, list_del-at l n (some t) none (b.0 ∙ e) b.1.0) (del_last l n x t xs e r)
list_del-Represents l n (x ∷ xs) (y ∷ ys) r =
    let (t, e) = back-some x xs in
    let (a, b) = Linked-split l.next l.prev none none (x ∷ xs) (n ∷ y ∷ ys) r.linked in
    rw (list_del-at l n (some t) (some y) (b.0 ∙ e) b.1.0) (del_inner l n x t xs e y ys r)

nodes-Linked :
    (l : HevList) (fuel : ℕ) (p : Option ℕ) (xs : List ℕ)
    → length xs ≤ fuel
    → Linked l.next l.prev p xs none
    → nodes fuel (front xs none) l ≡ some xs
unfolding nodes prepend
nodes-Linked l zero p [] b h = refl
nodes-Linked l (suc fuel) p [] b h = refl
nodes-Linked l zero p (x ∷ xs) b h = absurd (omega arith)
nodes-Linked l (suc fuel) p (x ∷ xs) b h =
    rw h.1.0 (rw (nodes-Linked l fuel (some x) xs (omega arith) h.1.1) refl)

-- The loop over the nodes ends, and visits the nodes of the list in order.
pub nodes-Represents :
    (l : HevList) (xs : List ℕ) (fuel : ℕ)
    → Represents l xs
    → length xs ≤ fuel
    → nodes fuel l.head l ≡ some xs
nodes-Represents l xs fuel r b =
    subst (λ o. nodes fuel o l ≡ some xs) (sym r.head) (nodes-Linked l fuel none xs b r.linked)
