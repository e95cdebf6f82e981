-- ===== src/Vm/Table/Names.antt =====
-- The list of archetypes as a list of name hashes, the newest first, and what `find` answers.
use nextnucleus.Base.{
  [], ℕ, zero, suc, ◌+◌, ◌-◌, ◌≤◌, ◌<◌, ◌≡◌, refl, ap, ◌∙◌, some, List, ◌∷◌, arith, ◌==◌,
  if◌then◌else◌, length, get_elem?, u16_mod,
}
use nextnucleus.Vm.Text.{ident_size, ident_uid}
use nextnucleus.Vm.Table.{ArchetypeEntry, FieldEntry, TableManager, find_loop, find}

-- The entries below `length us` hold names with the hashes `us`, each linked to the one before it.
abbrev pub Named : List ArchetypeEntry → List ℕ → Type 0
Named entries [] = Unit
Named entries (u ∷ us) =
    (e : ArchetypeEntry) × (get_elem? entries (length us) ≡ some e)
    × (ident_uid e.name ≡ some u)
    × (e.next ≡ length us)
    × Named entries us

abbrev pub FieldNames : List FieldEntry → Type 0
FieldNames fs = (i : ℕ) (f : FieldEntry) → get_elem? fs i ≡ some f → length f.name ≡ ident_size

-- The manager's archetypes have the name hashes `us`; every entry's name has the size of a name.
pub record IsValid (m : TableManager) (us : List ℕ) : Type 0 where
  pub count : m.archetype_count ≡ length us
  pub first : m.first_archetype ≡ length us
  pub room : length us ≤ m.archetype_capacity
  pub small : m.archetype_capacity < u16_mod
  pub sized : length m.archetypes ≡ m.archetype_capacity
  pub named : Named m.archetypes us
  pub fields_room : m.field_count ≤ m.field_capacity
  pub fields_small : m.field_capacity < u16_mod
  pub fields_sized : length m.fields ≡ m.field_capacity
  pub field_names : FieldNames m.fields
  pub names :
      (i : ℕ) (e : ArchetypeEntry) → get_elem? m.archetypes i ≡ some e → length e.name ≡ ident_size

-- The handle of the newest archetype with a name hash, or 0.
abbrev pub handle_of : List ℕ → ℕ → ℕ
handle_of [] u = 0
handle_of (v ∷ us) u = if v == u then suc (length us) else handle_of us u

find_loop_lem :
    (fuel : ℕ) (m : TableManager) (u : ℕ) (us : List ℕ)
    → Named m.archetypes us
    → length us < fuel
    → find_loop fuel m u (length us) ≡ some (handle_of us u)
unfolding find_loop
find_loop_lem zero m u us h lt = absurd (omega arith)
find_loop_lem (suc fuel) m u [] h lt = refl
find_loop_lem (suc fuel) m u (v ∷ us) (e, at, hash, next, rest) lt =
    let back : suc (length us) - 1 ≡ length us = omega arith in
    let ih = find_loop_lem fuel m u us rest (omega arith) in ground arith

-- In a well-formed manager nu__archetype_find ends, and answers the handle of the newest archetype
-- whose name has the hash, or 0.
pub find_lem :
    (m : TableManager) (us : List ℕ) (u : ℕ) → IsValid m us → find m u ≡ some (handle_of us u)
unfolding find
find_lem m us u v =
    let ih = find_loop_lem (m.archetype_count + 1) m u us v.named (omega (arith, v.count)) in
    ap (find_loop (m.archetype_count + 1) m u) v.first ∙ ih
