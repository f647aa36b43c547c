-- ===== src/Monitor/History.antt =====
-- The command history of ayumos/monitor/history.c. An item is its own copy of a command, a list of bytes, or
-- `none` for NULL. Whether kmalloc and kcalloc give memory is an argument.
mod Order
mod Tests
use m68k_system.Common.{
  ℕ, zero, suc, ◌+◌, ◌-◌, Bool, true, false, Option, none, some, List, [], ◌∷◌, ltb, leb, ◌==◌,
  if◌then◌else◌, get_or, set, Code, success, enomem, einval,
}

-- `command_history_t`
pub record History : Type 0 where
  pub item : List (Option (List ℕ))
  pub next : ℕ
  pub len : ℕ

-- Zeroed memory for `n` items.
abbrev pub no_items : ℕ → List (Option (List ℕ))
no_items zero = []
no_items (suc n) = none ∷ no_items n

-- history_init, for a length that is not negative; `object` and `array` say whether the two allocations succeed.
pub history_init : Bool → Bool → ℕ → Code × Option History
history_init object array len =
    if ltb len 1
    then (einval, none)
    else if object
    then (if array
        then (success, some (record { item = no_items len; next = 0; len = len }))
        else (enomem, none))
    else (enomem, none)

-- history_clear
pub history_clear : History → History
history_clear h = record h { item = no_items h.len; next = 0 }

-- history_add, where kmalloc succeeds if `memory` says so.
pub history_add : Bool → History → List ℕ → History
history_add memory h cmd =
    if memory
    then record h {
      item = set h.item h.next (some cmd);
      next = if h.next + 1 == h.len then 0 else h.next + 1;
    }
    else record h { item = set h.item h.next none }

-- history_get_at, from a place that is not negative.
pub history_get_at : History → ℕ → Option (List ℕ)
history_get_at h place =
    let at = if leb h.len (place + h.next) then place + h.next - h.len else place + h.next in
    if leb h.len place then none else get_or h.item at none

-- history_get_len
abbrev pub history_get_len : History → ℕ
history_get_len h = h.len
