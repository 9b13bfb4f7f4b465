-- ===== src/Transfer/Closing.antt =====
-- What becomes of the challenges when a land is sold.
use thesis_project_land_chai.Prelude.{
  String, true, false, ◌&&◌, ◌==◌, ◌≢◌, ◌⊎◌, inl, inr, Bool-cases, string_eq, nat_eq, some, List,
  [], ◌∷◌, map, ◌≡◌, arith,
}
use thesis_project_land_chai.Externals.{Externals}
use thesis_project_land_chai.Db.{LandStatus-eq, Challenge, failed}
use thesis_project_land_chai.Proof.{is_open}
use thesis_project_land_chai.Transfer.{close_challenge}

-- What a sale makes of a challenge: an open one against the land fails, with a note for its buyer,
-- and every other is left as it was.
pub data AfterSale (land_id : String) (c : Challenge) : Challenge → Type 0 where
  moot :
      c.land_id ≡ land_id
      → is_open c.status ≡ true
      → AfterSale land_id c (record c {
        status = failed;
        verification_note = some "Land was sold; challenge closed.";
      })
  unaffected : (c.land_id ≢ land_id) ⊎ (is_open c.status ≡ false) → AfterSale land_id c c

-- The challenges before and after a sale, one by one.
pub Closed : String → List Challenge → List Challenge → Type 0
Closed land_id [] [] = Unit
Closed land_id (c ∷ cs) (c' ∷ cs') = AfterSale land_id c c' × Closed land_id cs cs'
Closed land_id cs cs' = ⊥

open_or_other :
    {land_id : String} (c : Challenge)
    → (c.land_id == land_id && is_open c.status) ≡ false
    → (c.land_id ≢ land_id) ⊎ (is_open c.status ≡ false)
open_or_other c miss = elim (Bool-cases (is_open c.status)) [
  | inl still ↦ inl (λ same. ground (arith, miss, still, same))
  | inr shut ↦ inr shut
]

module _ (x : Externals) (land_id : String) where
  closes : (c : Challenge) → AfterSale land_id c (close_challenge x land_id c)
  unfolding close_challenge
  closes c = elim (Bool-cases (c.land_id == land_id && is_open c.status)) [
    | inl hit ↦ rw hit (moot (ground (arith, hit)) (ground (arith, hit)))
    | inr miss ↦ rw miss (unaffected (open_or_other c miss))
  ]

  pub close_all : (cs : List Challenge) → Closed land_id cs (map (close_challenge x land_id) cs)
  unfolding Closed
  close_all [] = tt
  close_all (c ∷ cs) = (closes c, close_all cs)
