-- ===== src/LinkedList.antt =====
-- list.go: a doubly linked list. The elements stand in one store and the lists in another; a pointer
-- is an index, or none for nil. A list's root is an element like the others.
pub mod Moves
pub mod Links
pub mod Calls
pub mod Restored
pub mod Inverse
mod Tests
use gbuf.Base.{
  ℕ, Bool, true, false, not, ◌&&◌, Option, none, some, List, [], ◌∷◌, ◌++◌, ◌==◌, if◌then◌else◌,
  Run, ok, panic, ◌>>=◌, length, get_elem?, set,
}
use gbuf.Base.Int.{ℤ, pos, ◌+ℤ◌, ◌-ℤ◌, eqb_ℤ}

pub record Element (T : Type 0) : Type 0 where
  pub next : Option ℕ
  pub prev : Option ℕ
  pub list : Option ℕ
  pub value : T

-- The list's root, as the index of an element, and its length.
pub record ListHead : Type 0 where
  pub root : ℕ
  pub len : ℤ

pub record Store (T : Type 0) : Type 0 where
  pub elements : List (Element T)
  pub lists : List ListHead

-- `==` of two pointers.
abbrev pub same_pointer : Option ℕ → Option ℕ → Bool
same_pointer none none = true
same_pointer none (some q) = false
same_pointer (some p) none = false
same_pointer (some p) (some q) = p == q

module _ {T : Type 0} where
  -- Following a nil pointer panics.
  abbrev pub element : Store T → Option ℕ → Run (Element T)
  element h none = panic
  element h (some p) = elim (get_elem? h.elements p) [ none ↦ panic | some e ↦ ok e ]

  abbrev pub put : Store T → Option ℕ → Element T → Run (Store T)
  put h none e = panic
  put h (some p) e = ok (record h { elements = set h.elements p e })

  abbrev pub head : Store T → ℕ → Run ListHead
  head h l = elim (get_elem? h.lists l) [ none ↦ panic | some r ↦ ok r ]

  abbrev pub set_next : Store T → Option ℕ → Option ℕ → Run (Store T)
  set_next h p q = element h p >>= λ e. put h p (record e { next = q })

  abbrev pub set_prev : Store T → Option ℕ → Option ℕ → Run (Store T)
  set_prev h p q = element h p >>= λ e. put h p (record e { prev = q })

  abbrev pub set_list : Store T → Option ℕ → Option ℕ → Run (Store T)
  set_list h p l = element h p >>= λ e. put h p (record e { list = l })

  abbrev pub set_len : Store T → ℕ → ℤ → Run (Store T)
  set_len h l n = head h l >>= λ r. ok (record h { lists = set h.lists l (record r { len = n }) })

  -- `p`, unless it is the root of the list of the element `e`.
  abbrev pub unless_root : Store T → Element T → Option ℕ → Run (Option ℕ)
  unless_root h e p = elim e.list [
    | none ↦ ok none
    | some l ↦ head h l >>= λ r. ok (if same_pointer p (some r.root) then none else p)
  ]

  unfoldable pub next : Store T → Option ℕ → Run (Option ℕ)
  next h p = element h p >>= λ e. unless_root h e e.next

  unfoldable pub prev : Store T → Option ℕ → Run (Option ℕ)
  prev h p = element h p >>= λ e. unless_root h e e.prev

  unfoldable pub init : Store T → ℕ → Run (Store T)
  init h l = do
    r ← head h l
    h₁ ← set_next h (some r.root) (some r.root)
    h₂ ← set_prev h₁ (some r.root) (some r.root)
    set_len h₂ l (pos 0)

  -- The zero List, initialized: its index in the store.
  unfoldable pub new_list : T → Store T → Run (ℕ × Store T)
  unfolding init
  new_list zero_value h = do
    let l = length h.lists
    let root : Element T = record { next = none; prev = none; list = none; value = zero_value }
    let fresh : ListHead = record { root = length h.elements; len = pos 0 }
    h' ← init (record { elements = h.elements ++ (root ∷ []); lists = h.lists ++ (fresh ∷ []) }) l
    ok (l, h')

  unfoldable pub len : Store T → ℕ → Run ℤ
  len h l = head h l >>= λ r. ok r.len

  unfoldable pub front : Store T → ℕ → Run (Option ℕ)
  front h l = do
    r ← head h l
    root ← element h (some r.root)
    ok (if eqb_ℤ r.len (pos 0) then none else root.next)

  unfoldable pub back : Store T → ℕ → Run (Option ℕ)
  back h l = do
    r ← head h l
    root ← element h (some r.root)
    ok (if eqb_ℤ r.len (pos 0) then none else root.prev)

  unfoldable pub lazy_init : Store T → ℕ → Run (Store T)
  unfolding init
  lazy_init h l = do
    r ← head h l
    root ← element h (some r.root)
    if same_pointer root.next none then init h l else ok h

  -- `e.prev = at`, `e.next = at.next`, `e.prev.next = e` and `e.next.prev = e`.
  unfoldable pub splice_in : Store T → Option ℕ → Option ℕ → Run (Store T)
  splice_in h e at = do
    h₁ ← set_prev h e at
    a ← element h₁ at
    h₂ ← set_next h₁ e a.next
    h₃ ← set_next h₂ at e
    e' ← element h₃ e
    set_prev h₃ e'.next e

  unfoldable pub insert : Store T → ℕ → Option ℕ → Option ℕ → Run (Store T)
  unfolding splice_in
  insert h l e at = do
    h₁ ← splice_in h e at
    h₂ ← set_list h₁ e (some l)
    r ← head h₂ l
    set_len h₂ l (r.len +ℤ pos 1)

  unfoldable pub insert_value : Store T → ℕ → T → Option ℕ → Run (Option ℕ × Store T)
  unfolding insert
  insert_value h l v at = do
    let e = some (length h.elements)
    let fresh : Element T = record { next = none; prev = none; list = none; value = v }
    h' ← insert (record h { elements = h.elements ++ (fresh ∷ []) }) l e at
    ok (e, h')

  -- `e.prev.next = e.next` and `e.next.prev = e.prev`.
  unfoldable pub unlink : Store T → Option ℕ → Run (Store T)
  unlink h e = do
    e₀ ← element h e
    h₁ ← set_next h e₀.prev e₀.next
    e₁ ← element h₁ e
    set_prev h₁ e₁.next e₁.prev

  unfoldable pub remove_element : Store T → ℕ → Option ℕ → Run (Store T)
  unfolding unlink
  remove_element h l e = do
    h₁ ← unlink h e
    h₂ ← set_next h₁ e none
    h₃ ← set_prev h₂ e none
    h₄ ← set_list h₃ e none
    r ← head h₄ l
    set_len h₄ l (r.len -ℤ pos 1)

  unfoldable pub move : Store T → Option ℕ → Option ℕ → Run (Store T)
  unfolding unlink splice_in
  move h e at = if same_pointer e at then ok h else unlink h e >>= λ h₁. splice_in h₁ e at
