-- ===== src/RecordStore/Edges.antt =====
-- The parent edges of the store of sovereign/src/protocol/v2/record-store.ts.
use cashloom.Prelude.{
  ◌≡◌, refl, subst, Bool, true, false, ◌&&◌, Option, none, some, List, [], ◌∷◌, ◌++◌, Text, text_eq,
  text_eq_iff, text_eq_refl, any, any-append, All, All-append, All-implies, Bool-cases, inl, inr,
  arith,
}
use cashloom.RecordStore.{StoredRow, ParentEdge}
use cashloom.RecordStore.Steps.{edges_of}
use cashloom.RecordStore.Sound.{fresh}

abbrev edge_test : Text → Text → ParentEdge → Bool
edge_test child parent e = text_eq e.child_record_id child && text_eq e.parent_record_id parent

abbrev pub has_edge : List ParentEdge → Text → Text → Bool
has_edge edges child parent = any (edge_test child parent) edges

abbrev pub KnownChild : List StoredRow → ParentEdge → Type 0
KnownChild rows e = any (λ r. text_eq r.record_id e.child_record_id) rows ≡ true

text_eq_sym : (a b : Text) → text_eq a b ≡ text_eq b a
text_eq_sym a b = ground (arith, text_eq_iff a b, text_eq_iff b a)

-- An edge of a new child is no edge of an old one.
pub has_edge-old :
    (edges : List ParentEdge) (child : Text) (parent : Option Text) (old pid : Text)
    → text_eq old child ≡ false
    → has_edge (edges ++ edges_of child parent) old pid ≡ has_edge edges old pid
unfolding any
has_edge-old edges child none old pid h = ground (arith, any-append (edge_test old pid) edges [])
has_edge-old edges child (some p) old pid h =
    let flip = text_eq_sym old child in
    ground (arith, any-append (edge_test old pid) edges (edges_of child (some p)))

-- A new child has its own edge only.
no_edge :
    (rows : List StoredRow) (edges : List ParentEdge) (child pid : Text)
    → any (λ r. text_eq r.record_id child) rows ≡ false
    → All (KnownChild rows) edges
    → has_edge edges child pid ≡ false
unfolding any
no_edge rows [] child pid fresh known = refl
no_edge rows (e ∷ es) child pid fresh (k, ks) =
    elim (Bool-cases (text_eq e.child_record_id child)) [
      | inl same ↦
          (let eq = (text_eq_iff e.child_record_id child).0 same in
            absurd (
              ground (
                arith,
                subst (λ c. any (λ (r : StoredRow). text_eq r.record_id c) rows ≡ true) eq k,
              )))
      | inr other ↦ ground (arith, no_edge rows es child pid fresh ks)
    ]

pub has_edge-new :
    (rows : List StoredRow) (edges : List ParentEdge) (child : Text) (parent : Option Text)
    (pid : Text)
    → any (λ r. text_eq r.record_id child) rows ≡ false
    → All (KnownChild rows) edges
    → has_edge (edges ++ edges_of child parent) child pid ≡ true
    → parent ≡ some pid
unfolding any
has_edge-new rows edges child none pid fresh known h = absurd (
    ground
      (arith, any-append (edge_test child pid) edges [], no_edge rows edges child pid fresh known))
has_edge-new rows edges child (some p) pid fresh known h = ground (
  arith,
  any-append (edge_test child pid) edges (edges_of child (some p)),
  no_edge rows edges child pid fresh known,
  text_eq_iff p pid,
)

module _ (rows : List StoredRow) (row : StoredRow) where
  known-grows : (e : ParentEdge) → KnownChild rows e → KnownChild (rows ++ row ∷ []) e
  known-grows e k =
      ground (
        arith,
        any-append (λ (x : StoredRow). text_eq x.record_id e.child_record_id) rows (row ∷ []),
      )

  known-self :
      (parent : Option Text) → All (KnownChild (rows ++ row ∷ [])) (edges_of row.record_id parent)
  unfolding any
  known-self none = tt
  known-self (some p) = (
    ground (
      arith,
      any-append (λ (x : StoredRow). text_eq x.record_id row.record_id) rows (row ∷ []),
      text_eq_refl row.record_id,
    ),
    tt,
  )

  pub known-written :
      (edges : List ParentEdge) (parent : Option Text)
      → All (KnownChild rows) edges
      → All (KnownChild (rows ++ row ∷ [])) (edges ++ edges_of row.record_id parent)
  known-written edges parent h =
      All-append _ edges (edges_of row.record_id parent) (All-implies _ _ edges known-grows h)
        (known-self parent)
