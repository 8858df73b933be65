-- ===== src/Alarm/Tree.antt =====
-- `__add_alarm` of libmeshias/alarm/alarm.c on the tree `alarm_root`. The tree's library colours and
-- rotates the tree after an insertion: `rb_insert_color` is a parameter, which keeps the order of the
-- nodes. The colours play no part in the walk.
use meshias.Base.{
  ◌≡◌, refl, sym, ap, ◌∙◌, true, false, List, [], ◌∷◌, ◌++◌, if◌then◌else◌, All, inl, inr,
  Bool-cases,
}
use meshias.Time.{timer_lt}
use meshias.Time.Laws.{timer_le_trans}
use meshias.Alarm.{AlarmBlock, insert}
use meshias.Alarm.Order.{NotLater, IsOrdered}

pub data RbNode : Type 0 where
  null : RbNode
  node : (rb_left : RbNode) (this : AlarmBlock) (rb_right : RbNode) → RbNode

-- The order of `rb_first` and `rb_next`.
unfoldable pub in_order : RbNode → List AlarmBlock
in_order null = []
in_order (node rb_left this rb_right) = in_order rb_left ++ this ∷ in_order rb_right

-- The walk to the empty place where `rb_link_node` puts the alarm.
unfoldable pub link_alarm : AlarmBlock → RbNode → RbNode
link_alarm alarm null = node null alarm null
link_alarm alarm (node rb_left this rb_right) =
    let left = link_alarm alarm rb_left in
    let right = link_alarm alarm rb_right in
    if timer_lt alarm.tv this.tv then node left this rb_right else node rb_left this right

insert-left :
    (a m : AlarmBlock) (l r : List AlarmBlock)
    → timer_lt a.tv m.tv ≡ true
    → insert a (l ++ m ∷ r) ≡ insert a l ++ m ∷ r
unfolding insert
insert-left a m [] r h = rw h refl
insert-left a m (x ∷ l) r h = elim (Bool-cases (timer_lt a.tv x.tv)) [
  | inl before ↦ rw before refl
  | inr behind ↦ rw behind (ap (λ (k : List AlarmBlock). x ∷ k) (insert-left a m l r h))
]

insert-right :
    (a m : AlarmBlock) (l r : List AlarmBlock)
    → IsOrdered (l ++ m ∷ r)
    → timer_lt a.tv m.tv ≡ false
    → insert a (l ++ m ∷ r) ≡ l ++ m ∷ insert a r
unfolding insert
insert-right a m [] r o h = rw h refl
insert-right a m (x ∷ l) r o h =
    rw (timer_le_trans x.tv m.tv a.tv (NotLater-middle x m l r o.0) h)
      (ap (λ (k : List AlarmBlock). x ∷ k) (insert-right a m l r o.1 h))
  where
    NotLater-middle :
        (x m : AlarmBlock) (l r : List AlarmBlock)
        → All (λ y. NotLater x.tv y.tv) (l ++ m ∷ r)
        → NotLater x.tv m.tv
    NotLater-middle x m [] r h = h.0
    NotLater-middle x m (y ∷ l) r h = NotLater-middle x m l r h.1

IsOrdered-left : (l r : List AlarmBlock) → IsOrdered (l ++ r) → IsOrdered l
IsOrdered-left [] r o = tt
IsOrdered-left (x ∷ l) r o = (All-left x l r o.0, IsOrdered-left l r o.1)
  where
    All-left :
        (x : AlarmBlock) (l r : List AlarmBlock)
        → All (λ y. NotLater x.tv y.tv) (l ++ r)
        → All (λ y. NotLater x.tv y.tv) l
    All-left x [] r h = tt
    All-left x (y ∷ l) r h = (h.0, All-left x l r h.1)

IsOrdered-right : (l r : List AlarmBlock) → IsOrdered (l ++ r) → IsOrdered r
IsOrdered-right [] r o = o
IsOrdered-right (x ∷ l) r o = IsOrdered-right l r o.1

in_order-link_alarm :
    (a : AlarmBlock) (t : RbNode)
    → IsOrdered (in_order t)
    → in_order (link_alarm a t) ≡ insert a (in_order t)
unfolding in_order link_alarm insert
in_order-link_alarm a null o = refl
in_order-link_alarm a (node l this r) o = elim (Bool-cases (timer_lt a.tv this.tv)) [
  | inl before ↦ rw before (
      ap (λ k. k ++ this ∷ in_order r) (in_order-link_alarm a l (IsOrdered-left (in_order l) _ o))
      ∙ sym (insert-left a this (in_order l) (in_order r) before))
  | inr behind ↦ rw behind (
      ap (λ k. in_order l ++ this ∷ k)
        (in_order-link_alarm a r (IsOrdered-right (in_order l) _ o).1)
      ∙ sym (insert-right a this (in_order l) (in_order r) o behind))
]

module _ (rb_insert_color : AlarmBlock → RbNode → RbNode) where
  unfoldable pub add_to_tree : AlarmBlock → RbNode → RbNode
  unfolding link_alarm
  add_to_tree alarm alarm_root = rb_insert_color alarm (link_alarm alarm alarm_root)

  -- If the recolouring keeps the order of the nodes, then on an ordered tree the insertion puts the
  -- alarm behind all that are not later, just as the insertion into the sequence of the alarms does.
  pub in_order-add_to_tree :
      ((a : AlarmBlock) (t : RbNode) → in_order (rb_insert_color a t) ≡ in_order t)
      → (alarm : AlarmBlock) (alarm_root : RbNode) → IsOrdered (in_order alarm_root)
      → in_order (add_to_tree alarm alarm_root) ≡ insert alarm (in_order alarm_root)
  unfolding add_to_tree
  in_order-add_to_tree keeps alarm alarm_root o =
      keeps alarm (link_alarm alarm alarm_root) ∙ in_order-link_alarm alarm alarm_root o
