-- ===== src/Challenge/Opening.antt =====
-- `createChallenge` against the buyer's open challenges for the land.
use thesis_project_land_chai.Prelude.{
  ℕ, String, true, false, ◌&&◌, ◌==◌, string_eq, nat_eq, none, List, [], ◌∷◌, ◌++◌, find, All,
  All-append, ◌≡◌, ◌⊎◌, inl, inr, refl, sym, arith, Option-cases, Bool-cases,
}
use mathlib.Core.Path.{subst}
use thesis_project_land_chai.Errors.{Result-cases}
use thesis_project_land_chai.Externals.{Externals}
use thesis_project_land_chai.Db.{
  LandStatus-eq, listed_for_sale, Challenge, Db, find_land, find_user,
}
use thesis_project_land_chai.Action.{◌>>=◌}
use thesis_project_land_chai.Field.{random_challenge_salt, buyer_bound_challenge}
use thesis_project_land_chai.Proof.{is_open}
use thesis_project_land_chai.Challenge.{
  ChallengeInput, name_or, find_open_challenge, new_challenge, create_challenge,
}

-- No challenge of the buyer for the land is open.
abbrev pub NoneOpen : String → ℕ → List Challenge → Type 0
NoneOpen land_id buyer_id =
    All (λ c. c.land_id ≡ land_id → c.buyer_id ≡ buyer_id → is_open c.status ≡ false)

-- No two open challenges are of one buyer for one land.
abbrev pub OneOpen : List Challenge → Type 0
OneOpen [] = Unit
OneOpen (c ∷ cs) = (is_open c.status ≡ true → NoneOpen c.land_id c.buyer_id cs) × OneOpen cs

find-NoneOpen :
    (land_id : String) (buyer_id : ℕ) (cs : List Challenge)
    → find
        (λ (c : Challenge). c.land_id == land_id && c.buyer_id == buyer_id && is_open c.status)
        cs
      ≡ none
    → NoneOpen land_id buyer_id cs
find-NoneOpen land_id buyer_id [] h = tt
find-NoneOpen land_id buyer_id (c ∷ cs) h =
    (λ e e'. ground (arith, h, e, e'), find-NoneOpen land_id buyer_id cs (ground (arith, h)))

append-OneOpen :
    (c : Challenge) (cs : List Challenge)
    → NoneOpen c.land_id c.buyer_id cs
    → OneOpen cs
    → OneOpen (cs ++ c ∷ [])
append-OneOpen c [] free one = (λ h. tt, tt)
append-OneOpen c (d ∷ ds) (closed, free) (first, one) = (
  λ h.
      All-append (λ k. k.land_id ≡ d.land_id → k.buyer_id ≡ d.buyer_id → is_open k.status ≡ false)
        ds (c ∷ []) (first h) (λ e e'. absurd (ground (arith, h, closed (sym e) (sym e'))), tt),
  append-OneOpen c ds free one,
)

module _ (x : Externals) (i : ChallengeInput) (db : Db) where
  create-challenges :
      ((create_challenge x i db).1.challenges ≡ db.challenges)
      ⊎ ((c : Challenge) × (find_open_challenge i.land_id i.buyer_id db ≡ none)
          × (c.land_id ≡ i.land_id)
          × (c.buyer_id ≡ i.buyer_id)
          × ((create_challenge x i db).1.challenges ≡ db.challenges ++ c ∷ []))
  unfolding create_challenge ◌>>=◌ new_challenge
  create-challenges = elim (Option-cases (find_land i.land_id db)) [
    | inl missing ↦ inl (ground (arith, missing))
    | inr (l, found) ↦ elim (Bool-cases (l.status == listed_for_sale)) [
      | inr elsewhere ↦ inl (ground (arith, found, elsewhere))
      | inl listed ↦ elim (Bool-cases (l.owner_id == i.buyer_id)) [
        | inl own ↦ inl (ground (arith, found, listed, own))
        | inr other ↦ elim (Option-cases (find_open_challenge i.land_id i.buyer_id db)) [
          | inr (c, again) ↦ inl (ground (arith, found, listed, other, again))
          | inl free ↦
              elim (Result-cases
                (buyer_bound_challenge x i.buyer_wallet (random_challenge_salt x))) [
                  | inr (e, unbound) ↦ inl (ground (arith, found, listed, other, free, unbound))
                  | inl (nonce, bound) ↦ inr (
                    new_challenge x i l nonce (name_or (find_user i.buyer_id db) "Buyer")
                        db.next_id,
                    free,
                    refl,
                    refl,
                    ground (arith, found, listed, other, free, bound),
                  )
                ]
        ]
      ]
    ]
  ]

  -- Creating a challenge, whether it goes through or throws, leaves each buyer with at most one
  -- open challenge for a land, where that was so before.
  pub create_challenge-OneOpen :
      OneOpen db.challenges → OneOpen (create_challenge x i db).1.challenges
  unfolding find_open_challenge
  create_challenge-OneOpen one = elim create-challenges [
    | inl same ↦ subst OneOpen (sym same) one
    | inr (c, free, e, e', grown) ↦
        let none_open = find-NoneOpen i.land_id i.buyer_id db.challenges free in
        subst OneOpen (sym grown) (
          append-OneOpen c db.challenges
            (subst (λ b. NoneOpen c.land_id b db.challenges) (sym e')
              (subst (λ l. NoneOpen l i.buyer_id db.challenges) (sym e) none_open))
            one)
  ]
