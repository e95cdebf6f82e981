-- ===== src/Vm/Table/Fields.antt =====
-- What the creation of an archetype does to the fields.
use nextnucleus.Base.{
  [], ℕ, zero, suc, ◌+◌, ◌≤◌, ◌<◌, ◌≡◌, refl, sym, ap, subst, ◌∙◌, inl, inr, ◌&&◌, some, List, ◌∷◌,
  arith, ltb, ◌==◌, Bool-cases, ◌>>=◌, length, get_elem?, set, length-set, get_elem?-set,
  get_elem?-set_self, get_elem?-set_ne, get_elem?_total, All, u16_mod, u16,
}
use nextnucleus.Vm.Text.{ident_size, ident_max, ident_uid, uid}
use nextnucleus.Vm.Text.Compare.{IsText}
use nextnucleus.Vm.Text.Ident.{ident_set_str_lem, ident_uid-uid}
use nextnucleus.Vm.Table.{FieldInfo, FieldEntry, TableManager, insert_field, insert_fields}
use nextnucleus.Vm.Table.Names.{FieldNames}

-- The entry at a place is that of a declared field.
pub record FieldAt (fs : List FieldEntry) (j : ℕ) (info : FieldInfo) : Type 0 where
  pub field : FieldEntry
  pub at : get_elem? fs j ≡ some field
  pub primitive : field.primitive ≡ info.primitive
  pub archetype : field.archetype ≡ info.archetype
  pub hash : length info.name ≤ ident_max → ident_uid field.name ≡ uid info.name

FieldNames-set :
    (fs : List FieldEntry) (i : ℕ) (f : FieldEntry)
    → FieldNames fs
    → length f.name ≡ ident_size
    → FieldNames (set fs i f)
FieldNames-set fs i f h e j g at = elim (Bool-cases (i == j && ltb i (length fs))) [
  | inl t ↦
      let q : some f ≡ some g = sym (get_elem?-set fs i j f ∙ ground arith) ∙ at in
      let same : f ≡ g = cc in ap (λ (x : FieldEntry). length x.name) (sym same) ∙ e
  | inr t ↦ h j g (ground (arith, get_elem?-set fs i j f))
]

insert_field_lem :
    (m : TableManager) (info : FieldInfo)
    → IsText info.name
    → m.field_count < m.field_capacity
    → m.field_capacity < u16_mod
    → length m.fields ≡ m.field_capacity
    → FieldNames m.fields
    → (fs : List FieldEntry) × (insert_field m info
        ≡ some (record m { field_count = m.field_count + 1; fields = fs }))
      × (length fs ≡ m.field_capacity)
      × FieldNames fs
      × ((j : ℕ) → j < m.field_count → get_elem? fs j ≡ get_elem? m.fields j)
      × FieldAt fs m.field_count info
unfolding insert_field
insert_field_lem m info text room small sized names =
    let (f, at) = get_elem?_total m.fields m.field_count (omega arith) in
    let (name, runs, len, _, _) =
      ident_set_str_lem f.name info.name (names m.field_count f at) text in
    let new : FieldEntry = record {
      primitive = info.primitive;
      archetype = info.archetype;
      name = name;
    } in
    let fs = set m.fields m.field_count new in
    let wrap : u16 (m.field_count + 1) ≡ m.field_count + 1 = omega arith in
    (
      fs,
      ground arith,
      length-set m.fields m.field_count new ∙ sized,
      FieldNames-set m.fields m.field_count new names len,
      λ j h. get_elem?-set_ne m.fields m.field_count j new (omega arith),
      record {
        field = new;
        at = get_elem?-set_self m.fields m.field_count new (omega arith);
        primitive = refl;
        archetype = refl;
        hash = λ h. ident_uid-uid f.name info.name (names m.field_count f at) text h runs;
      },
    )

abbrev pub Texts : List FieldInfo → Type 0
Texts = All (λ (f : FieldInfo). IsText f.name)

pub insert_fields_lem :
    (n : ℕ) (m : TableManager) (infos : List FieldInfo)
    → Texts infos
    → n ≤ length infos
    → m.field_count + n ≤ m.field_capacity
    → m.field_capacity < u16_mod
    → length m.fields ≡ m.field_capacity
    → FieldNames m.fields
    → (fs : List FieldEntry) × (insert_fields m infos n
        ≡ some (record m { field_count = m.field_count + n; fields = fs }))
      × (length fs ≡ m.field_capacity)
      × FieldNames fs
      × ((j : ℕ) → j < m.field_count → get_elem? fs j ≡ get_elem? m.fields j)
      × ((i : ℕ) (info : FieldInfo)
          → i < n
          → get_elem? infos i ≡ some info
          → FieldAt fs (m.field_count + i) info)
unfolding insert_fields
insert_fields_lem zero m infos texts le room small sized names =
    let e : m.field_count + 0 ≡ m.field_count = omega arith in
    (
      m.fields,
      ap (λ c. some (record m { field_count = c })) (sym e),
      sized,
      names,
      λ j h. refl,
      λ i info h. absurd (omega arith),
    )
insert_fields_lem (suc n) m [] texts le room small sized names = absurd (omega arith)
insert_fields_lem (suc n) m (info ∷ infos) (text, texts) le room small sized names =
    let (fs, runs, len, names₁, same, at) =
      insert_field_lem m info text (omega arith) small sized names in
    let m₁ : TableManager = record m { field_count = m.field_count + 1; fields = fs } in
    let (fs', runs', len', names', same', at') =
      insert_fields_lem n m₁ infos texts (omega arith) (omega arith) small len names₁ in
    let plus : m.field_count + 1 + n ≡ m.field_count + suc n = omega arith in
    (
      fs',
      ap (λ o. o >>= λ x. insert_fields x infos n) runs
          ∙ runs'
          ∙ ap (λ c. some (record m { field_count = c; fields = fs' })) plus,
      len',
      names',
      λ j h. same' j (omega arith) ∙ same j h,
      elim [
        | zero ↦ λ d h e.
            let q : info ≡ d = cc in
            let z : m.field_count + 0 ≡ m.field_count = omega arith in
            subst (λ x. FieldAt fs' (m.field_count + 0) x) q
              (record {
                field = at.field;
                at = ap (get_elem? fs') z ∙ same' m.field_count (omega arith) ∙ at.at;
                primitive = at.primitive;
                archetype = at.archetype;
                hash = at.hash;
              })
        | suc i ↦ λ d h e.
            let q : m.field_count + 1 + i ≡ m.field_count + suc i = omega arith in
            subst (λ k. FieldAt fs' k d) q (at' i d (omega arith) e)
      ],
    )
