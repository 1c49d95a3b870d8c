-- ===== src/Keyboard.antt =====
-- The keyboard of src/keyboard.c: the state of the modifier keys, the ring of characters, and the
-- processes that are blocked in a read of the console, which `proc_notify_console` of src/proc.c lets
-- take characters at once. The ports and the interrupt flag are left out, and so are the pollers, which
-- take no character.
mod Tests
pub mod Ring
pub mod Served
use muos.Common.{
  ℕ, zero, suc, ◌+◌, ◌-◌, ◌*◌, ◌/◌, ◌%◌, Bool, true, false, not, ◌&&◌, ◌||◌, Option, none, some,
  List, [], ◌∷◌, ltb, leb, ◌==◌, if◌then◌else◌, get_or,
}
use muos.Common.Mem.{Mem, blit}

abbrev pub buffer_size : ℕ
buffer_size = 256

-- The static variables.
pub record Keyboard : Type 0 where
  pub lshift : Bool
  pub rshift : Bool
  pub lctrl : Bool
  pub rctrl : Bool
  pub lalt : Bool
  pub ralt : Bool
  pub capslock : Bool
  pub extended : Bool
  pub buffer : Mem
  pub head : ℕ
  pub tail : ℕ

-- The tables by scan code; the codes behind the last one have 0.
abbrev pub kbd_lower : List ℕ
kbd_lower =
    0 ∷ 27 ∷ 49 ∷ 50 ∷ 51 ∷ 52 ∷ 53 ∷ 54 ∷ 55 ∷ 56 ∷ 57 ∷ 48 ∷ 45 ∷ 61 ∷ 8 ∷ 9 ∷ 113 ∷ 119 ∷ 101
    ∷ 114 ∷ 116 ∷ 121 ∷ 117 ∷ 105 ∷ 111 ∷ 112 ∷ 91 ∷ 93 ∷ 10 ∷ 0 ∷ 97 ∷ 115 ∷ 100 ∷ 102 ∷ 103 ∷ 104
    ∷ 106 ∷ 107 ∷ 108 ∷ 59 ∷ 39 ∷ 96 ∷ 0 ∷ 92 ∷ 122 ∷ 120 ∷ 99 ∷ 118 ∷ 98 ∷ 110 ∷ 109 ∷ 44 ∷ 46 ∷ 47
    ∷ 0 ∷ 42 ∷ 0 ∷ 32 ∷ []

abbrev pub kbd_upper : List ℕ
kbd_upper =
    0 ∷ 27 ∷ 33 ∷ 64 ∷ 35 ∷ 36 ∷ 37 ∷ 94 ∷ 38 ∷ 42 ∷ 40 ∷ 41 ∷ 95 ∷ 43 ∷ 8 ∷ 9 ∷ 81 ∷ 87 ∷ 69 ∷ 82
    ∷ 84 ∷ 89 ∷ 85 ∷ 73 ∷ 79 ∷ 80 ∷ 123 ∷ 125 ∷ 10 ∷ 0 ∷ 65 ∷ 83 ∷ 68 ∷ 70 ∷ 71 ∷ 72 ∷ 74 ∷ 75 ∷ 76
    ∷ 58 ∷ 34 ∷ 126 ∷ 0 ∷ 124 ∷ 90 ∷ 88 ∷ 67 ∷ 86 ∷ 66 ∷ 78 ∷ 77 ∷ 60 ∷ 62 ∷ 63 ∷ 0 ∷ 42 ∷ 0 ∷ 32
    ∷ []

-- The ring is full.
abbrev pub is_full : Keyboard → Bool
is_full k = (k.head + 1) % buffer_size == k.tail

-- What `kbd_buf_put` does to the ring where it has room.
abbrev pub store_char : ℕ → Keyboard → Keyboard
store_char c k = record k {
  buffer = λ i. if i == k.head then c else k.buffer i;
  head = (k.head + 1) % buffer_size;
}

-- `keyboard_getchar` where a character is there; it waits where none is.
pub keyboard_getchar : Keyboard → Option (Keyboard × ℕ)
keyboard_getchar k =
    if k.head == k.tail
    then none
    else some (record k { tail = (k.tail + 1) % buffer_size }, k.buffer k.tail)

-- A process that waits, or waited, in `read(fd, buf, len)` on the console.
pub record Sleeper : Type 0 where
  pub asleep : Bool
  pub blk_ptr : ℕ
  pub blk_len : ℕ
  pub eax : ℕ
  pub mem : Mem

-- The keyboard, and those processes in the order of the process table.
pub record Console : Type 0 where
  pub keyboard : Keyboard
  pub sleepers : List Sleeper

abbrev pub user_base : ℕ
user_base = 0x08048000

abbrev pub user_end : ℕ
user_end = 0x08848000

-- The character is written to the process if the address is the user's; its `read` returns 1.
pub hand_over : ℕ → Sleeper → Sleeper
hand_over c r = record r {
  asleep = false;
  eax = 1;
  mem =
      if ltb r.blk_ptr user_base || leb user_end r.blk_ptr
      then r.mem
      else blit r.mem r.blk_ptr (c ∷ []);
}

-- `proc_read_check` of a process that reads the console.
pub console_check : Sleeper → Keyboard → Keyboard × Sleeper
console_check r k =
    let taken = elim (keyboard_getchar k) as (λ o. Keyboard × Sleeper) [
      | none ↦ (k, r)
      | some (k', c) ↦ (k', hand_over c r)
    ] in
    if (r.blk_ptr == 0) || (r.blk_len == 0) then (k, r) else taken

-- `proc_wake_readers` over the processes that read the console.
pub proc_wake_readers : List Sleeper → Keyboard → Keyboard × List Sleeper
proc_wake_readers [] k = (k, [])
proc_wake_readers (r ∷ rs) k =
    let (k', r') = if r.asleep then console_check r k else (k, r) in
    let (k'', rs') = proc_wake_readers rs k' in (k'', r' ∷ rs')

pub proc_notify_console : Console → Console
proc_notify_console s =
    let (k, rs) = proc_wake_readers s.sleepers s.keyboard in record { keyboard = k; sleepers = rs }

pub kbd_buf_put : ℕ → Console → Console
kbd_buf_put c s =
    if is_full s.keyboard
    then s
    else proc_notify_console (record s { keyboard = store_char c s.keyboard })

-- The codes that put a key after 0xE0 only, and those that put one always: the key, or 0.
pub extended_key : ℕ → ℕ
extended_key s =
    if s == 0x48
    then 0x80
    else if s == 0x50
    then 0x81
    else if s == 0x4B
    then 0x82
    else if s == 0x4D
    then 0x83
    else if s == 0x47
    then 0x84
    else if s == 0x4F
    then 0x85
    else if s == 0x49
    then 0x86
    else if s == 0x51
    then 0x87
    else if s == 0x53
    then 0x88
    else 0

pub function_key : ℕ → ℕ
function_key s =
    if leb 0x3B s && leb s 0x44
    then 0x90 + (s - 0x3B)
    else if s == 0x57
    then 0x9A
    else if s == 0x58
    then 0x9B
    else 0

abbrev pub between : ℕ → ℕ → ℕ → Bool
between a c b = leb a c && leb c b

-- The character of a code in the last case of the switch, 0 for none.
pub character : ℕ → Keyboard → ℕ
character s k =
    let lower = get_or kbd_lower s 0 in
    let shift = k.lshift || k.rshift in
    let shifted = if k.capslock && between b'a' lower b'z' then not shift else shift in
    let c = if shifted then get_or kbd_upper s 0 else lower in
    if not (k.lctrl || k.rctrl)
    then c
    else if between b'a' c b'z'
    then c - b'a' + 1
    else if between b'A' c b'Z'
    then c - b'A' + 1
    else c

-- The switch for a key that is released.
pub release : ℕ → Keyboard → Keyboard
release key k =
    if key == 0x2A
    then record k { lshift = false }
    else if key == 0x36
    then record k { rshift = false }
    else if key == 0x1D
    then (if k.extended then record k { rctrl = false } else record k { lctrl = false })
    else if key == 0x38
    then (if k.extended then record k { ralt = false } else record k { lalt = false })
    else k

-- The switch for a key that is pressed.
pub press : ℕ → Console → Console
press s console =
    let k = console.keyboard in
    if s == 0x2A
    then record console { keyboard = record k { lshift = true } }
    else if s == 0x36
    then record console { keyboard = record k { rshift = true } }
    else if s == 0x1D
    then record console {
      keyboard = if k.extended then record k { rctrl = true } else record k { lctrl = true };
    }
    else if s == 0x38
    then record console {
      keyboard = if k.extended then record k { ralt = true } else record k { lalt = true };
    }
    else if s == 0x3A
    then record console { keyboard = record k { capslock = not k.capslock } }
    else if not (extended_key s == 0)
    then (if k.extended then kbd_buf_put (extended_key s) console else console)
    else if not (function_key s == 0)
    then kbd_buf_put (function_key s) console
    else if character s k == 0
    then console
    else kbd_buf_put (character s k) console

abbrev pub set_extended : Bool → Console → Console
set_extended b s = record s { keyboard = record (s.keyboard) { extended = b } }

pub kbd_process_scancode : ℕ → Console → Console
kbd_process_scancode s console =
    if s == 0xE0
    then set_extended true console
    else if leb 0x80 s
    then set_extended false (record console { keyboard = release (s - 0x80) console.keyboard })
    else set_extended false (press s console)

pub keyboard_haschar : Keyboard → Bool
keyboard_haschar k = not (k.head == k.tail)

pub keyboard_peek : Keyboard → ℕ
keyboard_peek k = if k.head == k.tail then 0 else k.buffer k.tail

pub keyboard_flush : Keyboard → Keyboard
keyboard_flush k = record k { head = 0; tail = 0 }
