-- ===== src/LinkedList/Moves.antt =====
-- list.go: the operations of List that its callers use to change it.
use gbuf.Base.{
  ℕ, zero, suc, Bool, true, not, ◌||◌, Option, none, some, if◌then◌else◌, Run, ok, ◌>>=◌,
}
use gbuf.Base.Int.{ℤ, pos, negsuc}
use gbuf.LinkedList.{
  Store, same_pointer, element, head, next, prev, len, front, back, lazy_init, insert_value,
  remove_element, move,
}

-- `i > 0`, for the `i` of a loop that counts down.
abbrev pub rounds : ℤ → ℕ
rounds (pos n) = n
rounds (negsuc n) = zero

module _ {T : Type 0} where
  unfoldable pub remove : Store T → ℕ → Option ℕ → Run (T × Store T)
  unfolding remove_element
  remove h l p = do
    e ← element h p
    h' ← if same_pointer e.list (some l) then remove_element h l p else ok h
    e' ← element h' p
    ok (e'.value, h')

  unfoldable pub push_front : Store T → ℕ → T → Run (Option ℕ × Store T)
  unfolding lazy_init insert_value
  push_front h l v = do h' ← lazy_init h l; r ← head h' l; insert_value h' l v (some r.root)

  unfoldable pub push_back : Store T → ℕ → T → Run (Option ℕ × Store T)
  unfolding lazy_init insert_value
  push_back h l v = do
    h' ← lazy_init h l
    r ← head h' l
    root ← element h' (some r.root)
    insert_value h' l v root.prev

  unfoldable pub insert_before : Store T → ℕ → T → Option ℕ → Run (Option ℕ × Store T)
  unfolding insert_value
  insert_before h l v mark = do
    m ← element h mark
    if same_pointer m.list (some l) then insert_value h l v m.prev else ok (none, h)

  unfoldable pub insert_after : Store T → ℕ → T → Option ℕ → Run (Option ℕ × Store T)
  unfolding insert_value
  insert_after h l v mark = do
    m ← element h mark
    if same_pointer m.list (some l) then insert_value h l v mark else ok (none, h)

  unfoldable pub move_to_front : Store T → ℕ → Option ℕ → Run (Store T)
  unfolding move
  move_to_front h l p = do
    e ← element h p
    r ← head h l
    root ← element h (some r.root)
    if not (same_pointer e.list (some l)) || same_pointer root.next p
        then ok h
        else move h p (some r.root)

  unfoldable pub move_to_back : Store T → ℕ → Option ℕ → Run (Store T)
  unfolding move
  move_to_back h l p = do
    e ← element h p
    r ← head h l
    root ← element h (some r.root)
    if not (same_pointer e.list (some l)) || same_pointer root.prev p
        then ok h
        else move h p root.prev

  -- The common guard of MoveBefore and MoveAfter.
  unfoldable pub stays : Store T → ℕ → Option ℕ → Option ℕ → Run Bool
  stays h l p mark = do
    e ← element h p
    let go_on = element h mark >>= λ m. ok (not (same_pointer m.list (some l)))
    if not (same_pointer e.list (some l)) || same_pointer p mark then ok true else go_on

  unfoldable pub move_before : Store T → ℕ → Option ℕ → Option ℕ → Run (Store T)
  unfolding move stays
  move_before h l p mark = do
    stay ← stays h l p mark
    let moved = element h mark >>= λ m. move h p m.prev
    if stay then ok h else moved

  unfoldable pub move_after : Store T → ℕ → Option ℕ → Option ℕ → Run (Store T)
  unfolding move stays
  move_after h l p mark = do stay ← stays h l p mark; if stay then ok h else move h p mark

  -- The loops of PushBackList and PushFrontList, with the rounds left. The next element is looked up
  -- after the insertion.
  unfoldable pub push_back_loop : ℕ → Store T → ℕ → Option ℕ → Run (Store T)
  unfolding insert_value next
  push_back_loop zero h l p = ok h
  push_back_loop (suc i) h l p = do
    e ← element h p
    r ← head h l
    root ← element h (some r.root)
    (_, h') ← insert_value h l e.value root.prev
    p' ← next h' p
    push_back_loop i h' l p'

  unfoldable pub push_front_loop : ℕ → Store T → ℕ → Option ℕ → Run (Store T)
  unfolding insert_value prev
  push_front_loop zero h l p = ok h
  push_front_loop (suc i) h l p = do
    e ← element h p
    r ← head h l
    (_, h') ← insert_value h l e.value (some r.root)
    p' ← prev h' p
    push_front_loop i h' l p'

  unfoldable pub push_back_list : Store T → ℕ → ℕ → Run (Store T)
  unfolding lazy_init push_back_loop len front
  push_back_list h l other = do
    h₁ ← lazy_init h l
    n ← len h₁ other
    p ← front h₁ other
    push_back_loop (rounds n) h₁ l p

  unfoldable pub push_front_list : Store T → ℕ → ℕ → Run (Store T)
  unfolding lazy_init push_front_loop len back
  push_front_list h l other = do
    h₁ ← lazy_init h l
    n ← len h₁ other
    p ← back h₁ other
    push_front_loop (rounds n) h₁ l p
