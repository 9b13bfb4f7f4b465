-- ===== src/Notes.antt =====
-- The pattern by which stored proofs are checked again: each check that fails clears a flag and
-- pushes a note.
use thesis_project_land_chai.Prelude.{
  String, Bool, true, false, ◌&&◌, ◌<>◌, not, List, [], ◌∷◌, ◌≡◌, ◌↔◌, refl, All, arith,
  if◌then◌else◌,
}

-- `if (condition) { semanticOk = false; notes.push(note); }`, one after another: the flag, and
-- the notes.
abbrev pub passes : List (Bool × String) → Bool
passes [] = true
passes ((c, note) ∷ cs) = not c && passes cs

abbrev pub notes_of : List (Bool × String) → List String
notes_of [] = []
notes_of ((c, note) ∷ cs) = let rest = notes_of cs in if c then note ∷ rest else rest

-- `notes.join(" ")`
unfoldable pub join_notes : List String → String
join_notes [] = ""
join_notes (s ∷ []) = s
join_notes (s ∷ t ∷ rest) = s <> " " <> join_notes (t ∷ rest)

pub passes_iff : (cs : List (Bool × String)) → (passes cs ≡ true) ↔ All (λ c. c.0 ≡ false) cs
passes_iff [] = (λ h. tt, λ h. refl)
passes_iff ((c, note) ∷ cs) = ground (arith, passes_iff cs)
