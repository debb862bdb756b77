-- ===== src/HevList/Refines.antt =====
-- misc/hev-list.c: the operations on the memory as operations on the list that it stands for.
pub mod Removal
use gen_net.Base.{
  ℕ, zero, suc, ◌+◌, ◌≡◌, ◌≢◌, refl, sym, ap, subst, ◌∙◌, ◌⊎◌, inl, inr, Option, none, some, List,
  [], ◌∷◌, ◌++◌, arith, append-nil, ◌==◌, length, if◌then◌else◌,
}
use gen_net.HevList.{
  HevList, update, empty, behind_tail, add_tail, past_node, back_past, list_del, prepend, nodes,
  list_first, list_last,
}
use gen_net.HevList.Linked.{
  front, back, Linked, NotIn, Distinct, Linked-append, Linked-split, Linked-next, Linked-prev,
  back-ne, Linked-last, Linked-first, back-append, front-append,
}

-- The memory holds the list `xs`.
pub record Represents (l : HevList) (xs : List ℕ) : Type 0 where
  pub head : l.head ≡ front xs none
  pub tail : l.tail ≡ back none xs
  pub linked : Linked l.next l.prev none xs none
  pub distinct : Distinct xs

pub Represents-empty : Represents empty []
Represents-empty = record { head = refl; tail = refl; linked = tt; distinct = tt }

pub back-some : (x : ℕ) (xs : List ℕ) → (t : ℕ) × (back (some x) xs ≡ some t)
back-some x [] = (x, refl)
back-some x (y ∷ xs) = back-some y xs

pub NotIn-append : (k : ℕ) (xs ys : List ℕ) → NotIn k xs → NotIn k ys → NotIn k (xs ++ ys)
NotIn-append k [] ys h j = j
NotIn-append k (x ∷ xs) ys h j = (h.0, NotIn-append k xs ys h.1 j)

Distinct-snoc : (n : ℕ) (xs : List ℕ) → NotIn n xs → Distinct xs → Distinct (xs ++ n ∷ [])
Distinct-snoc n [] h d = (tt, tt)
Distinct-snoc n (x ∷ xs) h d =
    (NotIn-append x xs (n ∷ []) d.0 ((λ e. h.0 (sym e)), tt), Distinct-snoc n xs h.1 d.1)

module _ (l : HevList) (n : ℕ) where
  -- the memory behind an empty list, and behind one that ends with `t`
  abbrev after_none : HevList
  after_none = record {
    head = some n;
    tail = some n;
    next = update l.next n none;
    prev = update l.prev n none;
  }

  abbrev after_some : ℕ → HevList
  after_some t = record {
    head = l.head;
    tail = some n;
    next = update (update l.next n none) t (some n);
    prev = update l.prev n (some t);
  }

  add_tail-none : l.tail ≡ none → add_tail n l ≡ after_none
  unfolding add_tail behind_tail
  add_tail-none e = rw e refl

  add_tail-some : (t : ℕ) → l.tail ≡ some t → add_tail n l ≡ after_some t
  unfolding add_tail behind_tail
  add_tail-some t e = rw e refl

  add_some :
      (x t : ℕ) (xs : List ℕ)
      → back (some x) xs ≡ some t
      → Represents l (x ∷ xs)
      → NotIn n (x ∷ xs)
      → Represents (after_some t) ((x ∷ xs) ++ n ∷ [])
  add_some x t xs e r k =
      let next' = update (update l.next n none) t (some n) in
      let prev' = update l.prev n (some t) in
      let a = Linked-next l.next l.prev n none none none (x ∷ xs) k r.linked in
      let b = Linked-last (update l.next n none) l.prev t x (some n) none none xs e r.distinct a in
      let c = Linked-prev next' l.prev n (some t) none (some n) (x ∷ xs) k b in
      let last : Linked next' prev' (back none (x ∷ xs)) (n ∷ []) none =
        (ground (arith, e), (ground (arith, back-ne n t x xs e k), tt)) in
      record {
        head = r.head;
        tail = sym (back-append none (x ∷ xs) (n ∷ []));
        linked = Linked-append next' prev' none none (x ∷ xs) (n ∷ []) c last;
        distinct = Distinct-snoc n (x ∷ xs) k r.distinct;
      }

-- Adding a node that is not in the list puts it at the end.
pub add_tail-Represents :
    (l : HevList) (n : ℕ) (xs : List ℕ)
    → Represents l xs
    → NotIn n xs
    → Represents (add_tail n l) (xs ++ n ∷ [])
add_tail-Represents l n [] r k = rw (add_tail-none l n r.tail) (record {
  head = refl;
  tail = refl;
  linked = (ground arith, (ground arith, tt));
  distinct = (tt, tt);
})
add_tail-Represents l n (x ∷ xs) r k =
    let (t, e) = back-some x xs in rw (add_tail-some l n t (r.tail ∙ e)) (add_some l n x t xs e r k)
