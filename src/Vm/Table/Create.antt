-- ===== src/Vm/Table/Create.antt =====
-- What the creation of an archetype does to the list of archetypes.
use nextnucleus.Base.{
  [], ℕ, zero, suc, ◌+◌, ◌/◌, ◌≤◌, ◌<◌, ◌≡◌, refl, sym, ap, subst, ◌∙◌, ◌≢◌, ◌⊎◌, inl, inr, false,
  ◌&&◌, ◌||◌, some, List, ◌∷◌, arith, ltb, ◌==◌, Bool-cases, ◌>>=◌, length, get_elem?, set,
  length-set, get_elem?-set, get_elem?-set_self, get_elem?-set_ne, get_elem?_total, u16,
}
use nextnucleus.Vm.Text.{Bytes, ident_size, ident_max, uid}
use nextnucleus.Vm.Text.Compare.{IsText}
use nextnucleus.Vm.Text.Ident.{ident_set_str_lem, ident_uid-uid}
use nextnucleus.Vm.Types.{success, out_of_memory}
use nextnucleus.Vm.Table.{
  FieldInfo, ArchetypeEntry, TableManager, insert_archetype, create, find, archetype_entry_size,
  table_entry_capacity, sum_sizes, field_type_size, chunk_size,
}
use nextnucleus.Vm.Table.Names.{Named, IsValid, find_lem}
use nextnucleus.Vm.Table.Fields.{FieldAt, Texts, insert_fields_lem}

Named-set :
    (entries : List ArchetypeEntry) (i : ℕ) (e : ArchetypeEntry) (us : List ℕ)
    → length us ≤ i
    → Named entries us
    → Named (set entries i e) us
Named-set entries i e [] h named = tt
Named-set entries i e (u ∷ us) h (d, at, hash, next, rest) = (
  d,
  get_elem?-set_ne entries i (length us) e (omega arith) ∙ at,
  hash,
  next,
  Named-set entries i e us (omega arith) rest,
)

sum_sizes_total :
    (infos : List FieldInfo) (n : ℕ) → n ≤ length infos → (s : ℕ) × (sum_sizes infos n ≡ some s)
unfolding sum_sizes
sum_sizes_total infos zero h = (0, refl)
sum_sizes_total [] (suc n) h = absurd (omega arith)
sum_sizes_total (info ∷ infos) (suc n) h =
    let (s, e) = sum_sizes_total infos n (omega arith) in
    (_, ap (λ o. o >>= λ r. some (field_type_size info.primitive + r)) e)

sizes_total :
    (infos : List FieldInfo) (n : ℕ)
    → n ≤ length infos
    → (s : ℕ) × (c : ℕ) × (archetype_entry_size infos n ≡ some s)
      × (table_entry_capacity infos n ≡ some c)
unfolding table_entry_capacity
sizes_total infos n h =
    let (s, e) = sum_sizes_total infos n h in
    (
      u16 s,
      u16 (chunk_size / (u16 s + 4 + 2)),
      ap (λ o. o >>= λ r. some (u16 r)) e,
      ap (λ o. o >>= (λ r. some (u16 r)) >>= λ r. some (u16 (chunk_size / (r + 4 + 2)))) e,
    )

EntryNames-set :
    (es : List ArchetypeEntry) (i : ℕ) (e : ArchetypeEntry)
    → ((j : ℕ) (d : ArchetypeEntry) → get_elem? es j ≡ some d → length d.name ≡ ident_size)
    → length e.name ≡ ident_size
    → (j : ℕ) (d : ArchetypeEntry) → get_elem? (set es i e) j ≡ some d
    → length d.name ≡ ident_size
EntryNames-set es i e h len j d at = elim (Bool-cases (i == j && ltb i (length es))) [
  | inl t ↦
      let q : some e ≡ some d = sym (get_elem?-set es i j e ∙ ground arith) ∙ at in
      let same : e ≡ d = cc in ap (λ (x : ArchetypeEntry). length x.name) (sym same) ∙ len
  | inr t ↦ h j d (ground (arith, get_elem?-set es i j e))
]

insert_archetype_lem :
    (m : TableManager) (us : List ℕ) (name : Bytes) (infos : List FieldInfo) (n first u : ℕ)
    → IsValid m us
    → IsText name
    → length name ≤ ident_max
    → uid name ≡ some u
    → n ≤ length infos
    → length us < m.archetype_capacity
    → (m' : TableManager) × (insert_archetype m name infos n first ≡ some (m', suc (length us)))
      × (m'.fields ≡ m.fields)
      × (m'.field_count ≡ m.field_count)
      × IsValid m' (u ∷ us)
unfolding insert_archetype
insert_archetype_lem m us name infos n first u v text short hash le room =
    let i = m.archetype_count in
    let (entry, at) = get_elem?_total m.archetypes i (omega (arith, v.count, v.sized)) in
    let (s, c, es, ec) = sizes_total infos n le in
    let (name', runs, len, _, _) = ident_set_str_lem entry.name name (v.names i entry at) text in
    let new : ArchetypeEntry = record {
      capacity = c;
      entry_size = s;
      first_chunk = 0xffff;
      first_field_offset = first;
      field_count = n;
      next = m.first_archetype;
      name = name';
    } in
    let wrap : u16 (i + 1) ≡ suc (length us) = omega (arith, v.count, v.small) in
    let entries = set m.archetypes i new in
    let placed = get_elem?-set_self m.archetypes i new (omega (arith, v.count, v.sized)) in
    let hashed = ident_uid-uid entry.name name (v.names i entry at) text short runs ∙ hash in
    (
      record m {
        archetypes = entries;
        first_archetype = suc (length us);
        archetype_count = suc (length us);
      },
      rw (at, es, ec, ◌>>=◌, runs, wrap) refl,
      refl,
      refl,
      record {
        count = refl;
        first = refl;
        room = room;
        small = v.small;
        sized = length-set m.archetypes i new ∙ v.sized;
        named = (
          new,
          ap (get_elem? entries) (sym v.count) ∙ placed,
          hashed,
          v.first,
          Named-set m.archetypes i new us (omega (arith, v.count)) v.named,
        );
        fields_room = v.fields_room;
        fields_small = v.fields_small;
        fields_sized = v.fields_sized;
        field_names = v.field_names;
        names = EntryNames-set m.archetypes i new v.names len;
      },
    )

-- With room for the archetype and for its fields, and a name of at most 30 characters, the creation
-- succeeds with the next handle and leaves a well-formed manager; the fields stand behind those
-- that were there, which are unchanged.
pub create_lem :
    (m : TableManager) (us : List ℕ) (name : Bytes) (infos : List FieldInfo) (n u : ℕ)
    → IsValid m us
    → IsText name
    → length name ≤ ident_max
    → uid name ≡ some u
    → Texts infos
    → n ≤ length infos
    → length us < m.archetype_capacity
    → m.field_count + n ≤ m.field_capacity
    → (m' : TableManager) × (create m name infos n ≡ some (m', suc (length us), success))
      × IsValid m' (u ∷ us)
      × (m'.field_count ≡ m.field_count + n)
      × ((j : ℕ) → j < m.field_count → get_elem? m'.fields j ≡ get_elem? m.fields j)
      × ((i : ℕ) (info : FieldInfo)
          → i < n
          → get_elem? infos i ≡ some info
          → FieldAt m'.fields (m.field_count + i) info)
unfolding create
create_lem m us name infos n u v text short hash texts le room froom =
    let (fs, runs, len, fnames, same, at) =
      insert_fields_lem n m infos texts le froom v.fields_small v.fields_sized v.field_names in
    let m₁ : TableManager = record m { field_count = m.field_count + n; fields = fs } in
    let v₁ : IsValid m₁ us = record {
      count = v.count;
      first = v.first;
      room = v.room;
      small = v.small;
      sized = v.sized;
      named = v.named;
      fields_room = froom;
      fields_small = v.fields_small;
      fields_sized = len;
      field_names = fnames;
      names = v.names;
    } in
    let (m', runs', e, c, v') =
      insert_archetype_lem m₁ us name infos n m.field_count u v₁ text short hash le room in
    let enough : (ltb m.archetype_capacity (m.archetype_count + 1)
          || ltb m.field_capacity (m.field_count + n))
        ≡ false =
      ground (arith, v.count) in
    (
      m',
      rw (enough, runs, ◌>>=◌, runs') refl,
      v',
      c,
      λ j h. ap (λ f. get_elem? f j) e ∙ same j h,
      λ i info h q. subst (λ f. FieldAt f (m.field_count + i) info) (sym e) (at i info h q),
    )

-- In a well-formed manager without room for the archetype, or for its fields, nothing changes, the
-- handle is null and the error is out of memory.
pub create_full :
    (m : TableManager) (us : List ℕ) (name : Bytes) (infos : List FieldInfo) (n : ℕ)
    → IsValid m us
    → (length us ≡ m.archetype_capacity) ⊎ (m.field_capacity < m.field_count + n)
    → create m name infos n ≡ some (m, 0, out_of_memory)
unfolding create
create_full m us name infos n v h = ground (arith, v.count)

-- When a manager with room creates an archetype with a name of at most 30 characters, the hash of
-- the name then finds its handle, and every other hash finds what it found before.
pub find-create :
    (m : TableManager) (us : List ℕ) (name : Bytes) (infos : List FieldInfo) (n u : ℕ)
    {m' : TableManager} {h : ℕ}
    → IsValid m us
    → IsText name
    → length name ≤ ident_max
    → uid name ≡ some u
    → Texts infos
    → n ≤ length infos
    → length us < m.archetype_capacity
    → m.field_count + n ≤ m.field_capacity
    → create m name infos n ≡ some (m', h, success)
    → (find m' u ≡ some h) × ((w : ℕ) → w ≢ u → find m' w ≡ find m w)
find-create m us name infos n u {m'} {h} v text short hash texts le room froom runs =
    let (m₁, runs₁, v₁, _, _, _) =
      create_lem m us name infos n u v text short hash texts le room froom in
    let same : m₁ ≡ m' = cc in
    let handle : suc (length us) ≡ h = cc in
    subst (λ x. (find x u ≡ some h) × ((w : ℕ) → w ≢ u → find x w ≡ find m w)) same
      (
        find_lem m₁ (u ∷ us) u v₁ ∙ ground arith,
        λ w ne. find_lem m₁ (u ∷ us) w v₁ ∙ ground arith ∙ sym (find_lem m us w v),
      )
