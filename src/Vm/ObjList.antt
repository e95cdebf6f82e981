-- ===== src/Vm/ObjList.antt =====
-- nucleus/vm/list.h: a doubly linked list of objects that recycles the nodes it removes. A node is
-- a header of two pointers, at an address in a store of links, and its object is the memory behind
-- the header. The removed nodes form a second list, by their `next` alone.
pub mod Free
pub mod Pointer
pub mod Append
pub mod Remove
pub mod Walk
mod Tests
use nextnucleus.Base.{
  [], ◌>>=◌, ◌>>◌, ℕ, zero, suc, ◌+◌, ◌-◌, ◌%◌, not, Option, none, some, List, ◌∷◌, ◌==◌,
  if◌then◌else◌, assert, u64_mod,
}
use nextnucleus.Vm.Links.{Store, set_next, set_prev, update, unlink}

pub record ObjList : Type 0 where
  pub size : ℕ
  pub first : ℕ
  pub head : ℕ
  pub free : ℕ

-- sizeof(struct nu__list_header), two pointers of 64 bits
abbrev pub header_size : ℕ
header_size = 16

-- nu__object_from_header and nu__header_from_object, in the arithmetic of nu_size_t
unfoldable pub object_from_header : ℕ → ℕ
object_from_header header = (header + header_size) % u64_mod

unfoldable pub header_from_object : ℕ → ℕ
header_from_object obj = (obj + u64_mod - header_size) % u64_mod

-- nu__list_init
unfoldable pub init : ℕ → ObjList
init obj_size = record { size = obj_size + header_size; first = 0; head = 0; free = 0 }

-- The node to use: the head of the free list, or that of a new object. `object` is what the
-- allocator answers, and the node is 0 if it has no memory. A header at address 0 is a null pointer,
-- through which the source would write.
unfoldable pub take_node : Store → ObjList → ℕ → Option (ℕ × ObjList)
unfolding header_from_object
take_node m list object =
    if not (list.free == 0)
    then (do l ← m list.free; some (list.free, record list { free = l.next }))
    else if object == 0
    then some (0, list)
    else if header_from_object object == 0
    then none
    else some (header_from_object object, list)

-- The node goes to the end of the object list.
unfoldable pub push_node : Store → ObjList → ℕ → Option (Store × ObjList)
unfolding set_next set_prev update
push_node m list header = do
  m₁ ←
      if not (list.head == 0)
      then (do s ← set_next m list.head header; set_prev s header list.head)
      else set_prev m header 0
  m₂ ← set_next m₁ header 0
  some (
    m₂,
    record list { first = if not (list.head == 0) then list.first else header; head = header },
  )

-- nu__list_append: the object, or the null pointer
unfoldable pub append : Store → ObjList → ℕ → Option (Store × ObjList × ℕ)
unfolding take_node push_node object_from_header
append m list object = do
  (header, list₁) ← take_node m list object
  if header == 0
      then some (m, list₁, 0)
      else do (m₁, list₂) ← push_node m list₁ header; some (m₁, list₂, object_from_header header)

-- nu__list_remove
unfoldable pub remove : Store → ObjList → ℕ → Option (Store × ObjList)
unfolding set_next set_prev update
remove m list obj = do
  assert (not (obj == 0))
  let header = header_from_object obj
  l ← m header
  m₁ ← unlink m l
  l₁ ← m₁ header
  m₂ ← set_next m₁ header list.free
  m₃ ← set_prev m₂ header 0
  some (
    m₃,
    record list {
      first = if list.first == header then l₁.next else list.first;
      head = if list.head == header then l₁.prev else list.head;
      free = header;
    },
  )

-- nu__list_first
unfoldable pub first : ObjList → ℕ
unfolding object_from_header
first list = if not (list.first == 0) then object_from_header list.first else 0

-- nu__list_next
unfoldable pub next : Store → ℕ → Option ℕ
unfolding object_from_header header_from_object
next m obj = do
  assert (not (obj == 0))
  l ← m (header_from_object obj)
  some (if not (l.next == 0) then object_from_header l.next else 0)

-- What a client sees that starts at an object and asks for the next one until it gets the null
-- pointer, in at most `fuel` rounds.
unfoldable pub traverse : ℕ → Store → ℕ → Option (List ℕ)
unfolding next
traverse zero m obj = none
traverse (suc fuel) m obj =
    let rest = (do n ← next m obj; xs ← traverse fuel m n; some (obj ∷ xs)) in
    if obj == 0 then some [] else rest
