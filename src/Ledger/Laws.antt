-- ===== src/Ledger/Laws.antt =====
-- The dedupe index of the ledger: no two rows of an account share an external id.
use cashloom.Prelude.{
  ◌≡◌, refl, sym, ap, ◌∙◌, text_eq_refl, any-append, Bool, true, false, ◌||◌, ◌⊎◌, List, [], ◌∷◌,
  ◌++◌, Option, none, some, Text, text_eq, text_eq_iff, any, any-or, All_of_any, AllPairs-append,
  AllPairs, Bool-cases, inl, inr, find_of_any, find-holds, &&-elim, Memᴰ, Memᴰ_of_find, arith,
}
use cashloom.Ledger.{Transaction, same_id, collides, insert_or_ignore}

or-true : (b : Bool) → (b || true) ≡ true
or-true b = ground arith

collides_self :
    (t : Transaction) (external_id : Text) → t.external_id ≡ some external_id → collides t t ≡ true
unfolding collides
collides_self t external_id e = ground (arith, text_eq_refl t.account_id, text_eq_refl external_id)

self :
    (t : Transaction) (rows : List Transaction) (external_id : Text)
    → t.external_id ≡ some external_id
    → (any (collides t) rows || any (collides t) (t ∷ [])) ≡ true
unfolding any
self t rows external_id e = rw (collides_self t external_id e) (or-true (any (collides t) rows))

-- After the statement some row has the external id, if the row's own id was new.
pub insert-collides :
    (t : Transaction) (external_id : Text) (rows : List Transaction)
    → t.external_id ≡ some external_id
    → any (λ u. text_eq t.id u.id) rows ≡ false
    → any (collides t) (insert_or_ignore t rows) ≡ true
unfolding insert_or_ignore
insert-collides t external_id rows e fresh =
    let known = any-or (λ (u : Transaction). text_eq t.id u.id) (collides t) rows in
    elim (Bool-cases (any (λ u. text_eq t.id u.id || collides t u) rows)) [
      | inl old ↦ rw old (ground arith)
      | inr new ↦ rw new (any-append (collides t) rows (t ∷ []) ∙ self t rows external_id e)
    ]

same_id-some : (o : Option Text) (t : Text) → same_id (some t) o ≡ true → o ≡ some t
same_id-some none t h = cc
same_id-some (some u) t h = ap some (sym ((text_eq_iff t u).0 h))

-- A row with a new id is appended, unless the account has a row with the external id.
pub insert-cases :
    (t : Transaction) (external_id : Text) (rows : List Transaction)
    → t.external_id ≡ some external_id
    → any (λ u. text_eq t.id u.id) rows ≡ false
    → (insert_or_ignore t rows ≡ rows ++ t ∷ [])
      ⊎ ((insert_or_ignore t rows ≡ rows)
          × (u : Transaction) × Memᴰ u rows
          × (u.account_id ≡ t.account_id)
          × (u.external_id ≡ some external_id))
unfolding insert_or_ignore collides
insert-cases t external_id rows e fresh =
    let known = any-or (λ (u : Transaction). text_eq t.id u.id) (collides t) rows in
    elim (Bool-cases (any (λ u. text_eq t.id u.id || collides t u) rows)) [
      | inr new ↦ inl (rw new refl)
      | inl old ↦
          (let (u, found) = find_of_any (collides t) rows (ground arith) in
            let (account, external) = &&-elim _ _ (find-holds (collides t) rows u found) in
            inr (
              rw old refl,
              u,
              Memᴰ_of_find (collides t) rows u found,
              sym ((text_eq_iff t.account_id u.account_id).0 account),
              same_id-some u.external_id external_id (rw e at external),
            ))
    ]

abbrev pub IsDeduped : List Transaction → Type 0
IsDeduped = AllPairs (λ t u. collides u t ≡ false)

pub insert-IsDeduped :
    (t : Transaction) (rows : List Transaction)
    → IsDeduped rows
    → IsDeduped (insert_or_ignore t rows)
unfolding insert_or_ignore
insert-IsDeduped t rows h = elim (Bool-cases (any (λ u. text_eq t.id u.id || collides t u) rows)) [
  | inl old ↦ rw old h
  | inr new ↦ rw new (
      AllPairs-append (λ t u. collides u t ≡ false) rows t
        (All_of_any (collides t) rows
          (ground (arith, any-or (λ (u : Transaction). text_eq t.id u.id) (collides t) rows)))
        h)
]
