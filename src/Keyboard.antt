-- ===== src/Keyboard.antt =====
-- kernel/device/keyboard/keyboard.c and keycode.c: the key codes of the PS/2 keyboard and the ring
-- of characters that it fills. The port is not modelled: the byte read from it is an argument.
-- The locks only keep the interrupt and the reader apart: each function is one step.
pub mod Queue
mod Tests
use han_os.Base.{
  ℕ, zero, suc, ◌+◌, ◌-◌, ◌*◌, ◌/◌, ◌%◌, Bool, true, false, not, ◌&&◌, ◌||◌, Option, none, some,
  List, [], ◌∷◌, ltb, ◌==◌, if◌then◌else◌, u8, bit_and, nonzero, get_or, set,
}

abbrev pub kb_buffer_size : ℕ
kb_buffer_size = 128

abbrev pub kb_caps_lock : ℕ
kb_caps_lock = 58

abbrev pub kb_lctrl : ℕ
kb_lctrl = 29

abbrev pub kb_lshift : ℕ
kb_lshift = 42

abbrev pub kb_rshift : ℕ
kb_rshift = 54

-- TERM_MODE_INFO, TERM_MODE_CLI
abbrev pub term_mode_info : ℕ
term_mode_info = 0

abbrev pub term_mode_cli : ℕ
term_mode_cli = 1

-- The first 58 rows of the table, the plain and the shifted character of each key.
abbrev pub key_rows : List (ℕ × ℕ)
key_rows =
    (0, 0)
    ∷ (27, 0)
    ∷ (b'1', b'!')
    ∷ (b'2', b'@')
    ∷ (b'3', b'#')
    ∷ (b'4', b'$')
    ∷ (b'5', b'%')
    ∷ (b'6', b'^')
    ∷ (b'7', b'&')
    ∷ (b'8', b'*')
    ∷ (b'9', b'(')
    ∷ (b'0', b')')
    ∷ (b'-', b'_')
    ∷ (b'=', b'+')
    ∷ (8, 0)
    ∷ (9, 0)
    ∷ (b'q', b'Q')
    ∷ (b'w', b'W')
    ∷ (b'e', b'E')
    ∷ (b'r', b'R')
    ∷ (b't', b'T')
    ∷ (b'y', b'Y')
    ∷ (b'u', b'U')
    ∷ (b'i', b'I')
    ∷ (b'o', b'O')
    ∷ (b'p', b'P')
    ∷ (b'[', b'{')
    ∷ (b']', b'}')
    ∷ (10, 0)
    ∷ (0, 0)
    ∷ (b'a', b'A')
    ∷ (b's', b'S')
    ∷ (b'd', b'D')
    ∷ (b'f', b'F')
    ∷ (b'g', b'G')
    ∷ (b'h', b'H')
    ∷ (b'j', b'J')
    ∷ (b'k', b'K')
    ∷ (b'l', b'L')
    ∷ (b';', b':')
    ∷ (39, 34)
    ∷ (b'`', b'~')
    ∷ (0, 0)
    ∷ (92, b'|')
    ∷ (b'z', b'Z')
    ∷ (b'x', b'X')
    ∷ (b'c', b'C')
    ∷ (b'v', b'V')
    ∷ (b'b', b'B')
    ∷ (b'n', b'N')
    ∷ (b'm', b'M')
    ∷ (b',', b'<')
    ∷ (b'.', b'>')
    ∷ (b'/', b'?')
    ∷ (0, 0)
    ∷ (b'*', 0)
    ∷ (0, 0)
    ∷ (b' ', 0)
    ∷ []

pub row : ℕ → List (ℕ × ℕ) → ℕ × ℕ
row i [] = (0, 0)
row zero (r ∷ rs) = r
row (suc i) (r ∷ rs) = row i rs

-- `key_ascii`: of the other rows all are zero but those of the keypad's minus and plus.
abbrev pub key_ascii : ℕ → ℕ × ℕ
key_ascii scancode =
    if scancode == 74
    then (b'-', 0)
    else (if scancode == 78 then (b'+', 0) else row scancode key_rows)

unfoldable pub keyboard_get_ascii : ℕ → Bool → Bool → ℕ
unfolding row
keyboard_get_ascii scancode shift caps_lock =
    if (caps_lock || shift) && nonzero (key_ascii scancode).1
    then (key_ascii scancode).1
    else (key_ascii scancode).0

-- The file's static state; `ptr_to_update` is the table behind the pointer, if it is set.
pub record Keyboard : Type 0 where
  pub key_buffer : List ℕ
  pub buffer_length : ℕ
  pub read_index : ℕ
  pub write_index : ℕ
  pub last_keypress : ℕ
  pub key_pressed : ℕ → Bool
  pub ptr_to_update : Option (ℕ → Bool)

abbrev pub put_at : (ℕ → Bool) → ℕ → Bool → ℕ → Bool
put_at f i v j = if i == j then v else f j

unfoldable pub keyboard_set_key : Bool → ℕ → Keyboard → Keyboard
keyboard_set_key state keycode k = record k {
  key_pressed = put_at k.key_pressed keycode state;
  last_keypress = if state then keycode else 0;
  ptr_to_update = elim k.ptr_to_update [
    | none ↦ none
    | some table ↦ some (put_at table keycode state)
  ];
}

-- The terminal that the left Ctrl + Shift with this character switches to and refreshes.
unfoldable pub terminal_of : ℕ → Option ℕ
terminal_of ch =
    if ch == b'!' || ch == b'1'
    then some term_mode_cli
    else (if ch == b'@' || ch == b'2' then some term_mode_info else none)

-- `if (buffer_length < KB_BUFFER_SIZE) { ... }`
unfoldable pub store : ℕ → Keyboard → Keyboard
store ch k =
    if ltb k.buffer_length kb_buffer_size
    then (let next : ℕ = u8 (k.write_index + 1) in
        record k {
          key_buffer = set k.key_buffer k.write_index ch;
          write_index = if next == kb_buffer_size then 0 else next;
          buffer_length = u8 (k.buffer_length + 1);
        })
    else k

-- The character of a key code, by the keys held before it.
unfoldable pub char_of : ℕ → Keyboard → ℕ
unfolding keyboard_get_ascii
char_of key_code k =
    keyboard_get_ascii (bit_and key_code 0x7f) (k.key_pressed kb_lshift || k.key_pressed kb_rshift)
      (k.key_pressed kb_caps_lock)

-- One event of the keyboard as its users see it: a key code, or a call of `keyboard_get_key`.
pub data Event : Type 0 where
  key : ℕ → Event
  get : Event

-- The state after, and the terminal that is switched to and refreshed.
unfoldable pub keyboard_callback : ℕ → Keyboard → Keyboard × Option ℕ
keyboard_callback key_code k =
    let scan_code : ℕ = bit_and key_code 0x7f in
    let key_state : Bool = not (nonzero (bit_and key_code 0x80)) in
    let ch : ℕ = char_of key_code k in
    let k' = keyboard_set_key key_state scan_code k in
    if key_state && nonzero ch
    then (if k'.key_pressed kb_lshift && k'.key_pressed kb_lctrl
        then (k', terminal_of ch)
        else (store ch k', none))
    else (k', none)

unfoldable pub keyboard_get_key : Keyboard → ℕ × Keyboard
keyboard_get_key k =
    if k.buffer_length == 0
    then (0, k)
    else (let next : ℕ = u8 (k.read_index + 1) in
        (
          get_or k.key_buffer k.read_index 0,
          record k {
            read_index = if next == kb_buffer_size then 0 else next;
            buffer_length = k.buffer_length - 1;
          },
        ))

-- The state after a sequence of interrupts and reads.
unfoldable pub run : Keyboard → List Event → Keyboard
run k [] = k
run k (key c ∷ es) = run (keyboard_callback c k).0 es
run k (get ∷ es) = run (keyboard_get_key k).1 es
