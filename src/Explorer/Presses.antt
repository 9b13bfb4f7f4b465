-- ===== src/Explorer/Presses.antt =====
-- The pages of a list of entries, appended press by press.
use thesis_project_land_chai.Prelude.{
  ℕ, zero, suc, ◌+◌, ◌-◌, ◌≤◌, ◌<◌, Option, none, some, List, [], ◌∷◌, ◌++◌, length, take, drop,
  min, ltb, get_or_else, ◌≡◌, refl, sym, ap, ◌∙◌, inl, inr, arith, Bool-cases, if◌then◌else◌,
}
use mathlib.Core.Path.{subst}
use thesis_project_land_chai.Db.{Transaction}
use thesis_project_land_chai.Explorer.{ExplorerBlock, ExplorerResponse}
use thesis_project_land_chai.Explorer.Pages.{number_docs, next_cursor_of}
use thesis_project_land_chai.Client.ExplorerPage.{ExplorerPage, open_page, load_more, pressed}

module _ {ℓ} {A : Type ℓ} where
  pub take-length : (n : ℕ) (xs : List A) → take (length (take n xs)) xs ≡ take n xs
  take-length zero xs = refl
  take-length (suc n) [] = refl
  take-length (suc n) (x ∷ xs) = ap (λ ys. x ∷ ys) (take-length n xs)

  pub take-append :
      (n m : ℕ) (xs : List A)
      → take n xs ++ take m (drop n xs) ≡ take (n + length (take m (drop n xs))) xs
  take-append zero m xs = ground (arith, take-length m xs)
  take-append (suc n) zero [] = ground arith
  take-append (suc n) (suc m) [] = ground arith
  take-append (suc n) m (x ∷ xs) =
      let k = length (take m (drop n xs)) in
      let shift : suc (n + k) ≡ suc n + k = omega arith in
      ap (λ ys. x ∷ ys) (take-append n m xs) ∙ ap (λ i. take i (x ∷ xs)) shift

  pub take-all : (n : ℕ) (xs : List A) → length xs ≤ n → take n xs ≡ xs
  take-all zero [] h = refl
  take-all zero (x ∷ xs) h = absurd (omega (arith, h))
  take-all (suc n) [] h = refl
  take-all (suc n) (x ∷ xs) h = ap (λ ys. x ∷ ys) (take-all n xs (omega (arith, h)))

  pub length-take : (n : ℕ) (xs : List A) → length (take n xs) ≡ min n (length xs)
  length-take zero xs = ground arith
  length-take (suc n) [] = ground arith
  length-take (suc n) (x ∷ xs) = ground (arith, length-take n xs)

  pub length-drop : (n : ℕ) (xs : List A) → length (drop n xs) ≡ length xs - n
  length-drop zero xs = ground arith
  length-drop (suc n) [] = ground arith
  length-drop (suc n) (x ∷ xs) = ground (arith, length-drop n xs)

pub number_docs-append :
    (block : Transaction → ℕ → ExplorerBlock) (n : ℕ) (xs ys : List Transaction)
    → number_docs block n (xs ++ ys)
      ≡ number_docs block n xs ++ number_docs block (n - length xs) ys
number_docs-append block n [] ys = ground arith
number_docs-append block n (x ∷ xs) ys = ground (arith, number_docs-append block (n - 1) xs ys)

-- The pages of the ledger `docs`, of `limit` entries each.
abbrev pub IsPaging :
    (block : Transaction → ℕ → ExplorerBlock) (limit : ℕ) (docs : List Transaction)
    → (Option ℕ → ExplorerResponse)
    → Type 0
IsPaging block limit docs loads =
    (cursor : Option ℕ)
    → ((loads cursor).blocks
        ≡ number_docs block (length docs - get_or_else cursor 0)
            (take limit (drop (get_or_else cursor 0) docs)))
      × ((loads cursor).next_cursor
          ≡ next_cursor_of (get_or_else cursor 0) (take limit (drop (get_or_else cursor 0) docs))
              (length docs))

-- The page shows the first `n` entries, and goes on where entries are left.
record Shows (block : Transaction → ℕ → ExplorerBlock) (docs : List Transaction) (n : ℕ)
    (page : ExplorerPage) : Type 0 where
  fits : n ≤ length docs
  so_far : page.blocks ≡ number_docs block (length docs) (take n docs)
  goes_on : page.response.next_cursor ≡ (if ltb n (length docs) then some n else none)

module _ (block : Transaction → ℕ → ExplorerBlock) (limit : ℕ) (docs : List Transaction)
    (loads : Option ℕ → ExplorerResponse) (paging : IsPaging block limit docs loads) where
  open-Shows : Shows block docs (length (take limit docs)) (open_page loads)
  unfolding open_page next_cursor_of
  open-Shows = record {
    fits = ground (arith, length-take limit docs);
    so_far = ground (arith, (paging none).0, take-length limit docs);
    goes_on = ground (arith, (paging none).1);
  }

  load_more-some :
      (n : ℕ) (page : ExplorerPage)
      → page.response.next_cursor ≡ some n
      → load_more loads page
        ≡ record { response = loads (some n); blocks = page.blocks ++ (loads (some n)).blocks }
  unfolding load_more
  load_more-some n page h = ground (arith, h)

  appended :
      (n : ℕ)
      → n ≤ length docs
      → number_docs block (length docs) (take n docs) ++ (loads (some n)).blocks
        ≡ number_docs block (length docs) (take (n + length (take limit (drop n docs))) docs)
  appended n fits =
      ap (λ bs. number_docs block (length docs) (take n docs) ++ bs) (paging (some n)).0
      ∙ ground (
        arith,
        fits,
        length-take n docs,
        take-append n limit docs,
        number_docs-append block (length docs) (take n docs) (take limit (drop n docs)),
      )

  load_more-Shows :
      (n : ℕ) (page : ExplorerPage)
      → n < length docs
      → Shows block docs n page
      → Shows block docs (n + length (take limit (drop n docs))) (load_more loads page)
  unfolding next_cursor_of
  load_more-Shows n page left s =
      let more = load_more-some n page (ground (arith, left, s.goes_on)) in
      record {
        fits = ground (arith, left, length-take limit (drop n docs), length-drop n docs);
        so_far =
            ap (λ (p : ExplorerPage). p.blocks) more
            ∙ ap (λ bs. bs ++ (loads (some n)).blocks) s.so_far
            ∙ appended n s.fits;
        goes_on = ap (λ (p : ExplorerPage). p.response.next_cursor) more ∙ (paging (some n)).1;
      }

  load_more-none :
      (page : ExplorerPage) → page.response.next_cursor ≡ none → load_more loads page ≡ page
  unfolding load_more
  load_more-none page h = ground (arith, h)

  -- Each press shows an entry more, at least, until all are shown.
  pressed-Shows :
      1 ≤ limit
      → (presses : ℕ)
      → (n : ℕ) × (min presses (length docs) ≤ n) × Shows block docs n (pressed loads presses)
  unfolding pressed
  pressed-Shows limited zero = (length (take limit docs), ground arith, open-Shows)
  pressed-Shows limited (suc presses) =
      let (n, enough, shows) = pressed-Shows limited presses in
      elim (Bool-cases (ltb n (length docs))) [
        | inl left ↦ (
          n + length (take limit (drop n docs)),
          ground
              (arith, limited, enough, left, length-take limit (drop n docs), length-drop n docs),
          load_more-Shows n (pressed loads presses) (ground (arith, left)) shows,
        )
        | inr done ↦ (
          n,
          ground (arith, enough, done),
          subst (Shows block docs n)
              (sym (load_more-none (pressed loads presses) (ground (arith, done, shows.goes_on))))
              shows,
        )
      ]

  pub pressed_all :
      1 ≤ limit
      → ((pressed loads (length docs)).blocks ≡ number_docs block (length docs) docs)
        × ((pressed loads (length docs)).response.next_cursor ≡ none)
  pressed_all limited =
      let (n, enough, shows) = pressed-Shows limited (length docs) in
      (
        shows.so_far
            ∙ ap (number_docs block (length docs)) (take-all n docs (ground (arith, enough))),
        ground (arith, enough, shows.fits, shows.goes_on),
      )
