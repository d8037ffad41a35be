-- ===== src/Keyboard/Queue.antt =====
-- The ring of keyboard.c is a first-in-first-out queue of at most 128 characters.
use han_os.Base.{
  ℕ, suc, ◌+◌, ◌≤◌, ◌<◌, ◌≡◌, ◌≢◌, refl, ◌∙◌, sym, Bool, not, ◌&&◌, List, [], ◌∷◌, ◌++◌, length,
  length-set, ltb, ◌==◌, if◌then◌else◌, arith, bit_and, nonzero, u8, append-nil, append_assoc,
  Bool-cases, inl, inr,
}
use han_os.Ring.{ahead, window, window_first, window-set}
use han_os.Keyboard.{
  Keyboard, kb_buffer_size, kb_lshift, kb_lctrl, keyboard_set_key, char_of, store,
  keyboard_callback, keyboard_get_key, Event, key, get, run,
}

-- The indices stay inside the buffer and the length is the way from one to the other.
pub record IsValid (k : Keyboard) : Type 0 where
  pub room : kb_buffer_size < length k.key_buffer
  pub read_in : k.read_index < kb_buffer_size
  pub length_in : k.buffer_length ≤ kb_buffer_size
  pub write_is : k.write_index ≡ ahead kb_buffer_size k.read_index k.buffer_length

-- The characters waiting, oldest first.
abbrev pub contents : Keyboard → List ℕ
contents k = window kb_buffer_size k.key_buffer k.read_index k.buffer_length

store-IsValid : (ch : ℕ) (k : Keyboard) → IsValid k → IsValid (store ch k)
unfolding store
store-IsValid ch k v = ground (arith, length-set k.key_buffer k.write_index ch)

contents-store :
    (ch : ℕ) (k : Keyboard)
    → IsValid k
    → contents (store ch k)
      ≡ (if ltb k.buffer_length 128 then contents k ++ (ch ∷ []) else contents k)
unfolding store
contents-store ch k v = elim (Bool-cases (ltb k.buffer_length 128)) [
  | inl space ↦
      let small : k.buffer_length < 128 = ground arith in
      let longer : u8 (k.buffer_length + 1) ≡ suc k.buffer_length = omega arith in
      rw (space, longer)
        (window-set 128 k.key_buffer ch k.read_index k.buffer_length k.write_index
          (omega (arith, v.room)) v.read_in small v.write_is)
  | inr full ↦ rw full
]

-- A key code that puts a character into the queue: a press of a key with a character, when not
-- both the left Shift and the left Ctrl are held, that key included.
unfoldable pub types : ℕ → Keyboard → Bool
types key_code k =
    let pressed : Bool = not (nonzero (bit_and key_code 0x80)) in
    let k' = keyboard_set_key pressed (bit_and key_code 0x7f) k in
    (pressed && nonzero (char_of key_code k))
    && not (k'.key_pressed kb_lshift && k'.key_pressed kb_lctrl)

set_key-IsValid : (b : Bool) (c : ℕ) (k : Keyboard) → IsValid k → IsValid (keyboard_set_key b c k)
unfolding keyboard_set_key
set_key-IsValid b c k v = record {
  room = v.room;
  read_in = v.read_in;
  length_in = v.length_in;
  write_is = v.write_is;
}

-- The state after `keyboard_set_key`, as the callback calls it.
abbrev pressed : ℕ → Keyboard → Keyboard
pressed key_code k =
    keyboard_set_key (not (nonzero (bit_and key_code 0x80))) (bit_and key_code 0x7f) k

callback_cases :
    (key_code : ℕ) (k : Keyboard)
    → (keyboard_callback key_code k).0 ≡ (
        if types key_code k
        then store (char_of key_code k) (pressed key_code k)
        else pressed key_code k)
unfolding keyboard_callback types
callback_cases key_code k = ground arith

-- An interrupt keeps the indices inside the buffer.
pub keyboard_callback-IsValid :
    (key_code : ℕ) (k : Keyboard) → IsValid k → IsValid (keyboard_callback key_code k).0
keyboard_callback-IsValid c k v =
    let v' = set_key-IsValid (not (nonzero (bit_and c 0x80))) (bit_and c 0x7f) k v in
    elim (Bool-cases (types c k)) [
      | inl yes_types ↦
          rw (callback_cases c k, yes_types) (store-IsValid (char_of c k) (pressed c k) v')
      | inr no_types ↦ rw (callback_cases c k, no_types) v'
    ]

-- The characters that an interrupt adds to the queue.
unfoldable pub accepts : ℕ → Keyboard → List ℕ
accepts key_code k =
    if types key_code k && ltb k.buffer_length kb_buffer_size then char_of key_code k ∷ [] else []

-- An interrupt appends its character, if it types one and fewer than 128 are waiting, and leaves
-- the queue alone otherwise.
pub keyboard_callback-contents :
    (key_code : ℕ) (k : Keyboard)
    → IsValid k
    → contents (keyboard_callback key_code k).0 ≡ contents k ++ accepts key_code k
unfolding accepts keyboard_set_key
keyboard_callback-contents c k v =
    let v' = set_key-IsValid (not (nonzero (bit_and c 0x80))) (bit_and c 0x7f) k v in
    elim (Bool-cases (types c k)) [
      | inl yes_types ↦
          rw (callback_cases c k, yes_types)
            (contents-store (char_of c k) (pressed c k) v'
              ∙ elim (Bool-cases (ltb k.buffer_length 128)) [
                | inl space ↦ rw space
                | inr full ↦ rw (full, append-nil)
              ])
      | inr no_types ↦ rw (callback_cases c k, no_types) (rw append-nil)
    ]

-- The characters that a call of `keyboard_get_key` takes from the queue.
unfoldable pub takes : Keyboard → List ℕ
takes k = if k.buffer_length == 0 then [] else (keyboard_get_key k).0 ∷ []

pub keyboard_get_key-IsValid : (k : Keyboard) → IsValid k → IsValid (keyboard_get_key k).1
unfolding keyboard_get_key
keyboard_get_key-IsValid k v = ground arith

-- A read takes the oldest character, if there is one, and returns 0 otherwise.
pub keyboard_get_key-contents :
    (k : Keyboard)
    → IsValid k
    → (contents k ≡ takes k ++ contents (keyboard_get_key k).1)
      × (k.buffer_length ≡ 0 → (keyboard_get_key k).0 ≡ 0)
unfolding keyboard_get_key takes
keyboard_get_key-contents k v = elim (Bool-cases (k.buffer_length == 0)) [
  | inl none_left ↦ rw none_left (refl, λ _. refl)
  | inr some_left ↦
      let filled : k.buffer_length ≢ 0 = ground arith in
      let small : u8 (k.read_index + 1) ≡ k.read_index + 1 = omega (arith, v.read_in) in
      rw (some_left, small)
        (window_first 128 k.key_buffer k.read_index k.buffer_length filled, λ e. absurd (filled e))
]

-- What is accepted and what is read over a sequence of events, in order.
unfoldable pub accepted : Keyboard → List Event → List ℕ
accepted k [] = []
accepted k (key c ∷ es) = accepts c k ++ accepted (keyboard_callback c k).0 es
accepted k (get ∷ es) = accepted (keyboard_get_key k).1 es

unfoldable pub reads : Keyboard → List Event → List ℕ
reads k [] = []
reads k (key c ∷ es) = reads (keyboard_callback c k).0 es
reads k (get ∷ es) = takes k ++ reads (keyboard_get_key k).1 es

-- Over every sequence of interrupts and reads no character is lost, invented or reordered: what
-- was waiting, followed by what was accepted, is what was read, followed by what is waiting after.
pub run-conserves :
    (k : Keyboard) (es : List Event)
    → IsValid k
    → contents k ++ accepted k es ≡ reads k es ++ contents (run k es)
unfolding accepted reads run
run-conserves k [] v = append-nil (contents k)
run-conserves k (key c ∷ es) v =
    sym (append_assoc (contents k) (accepts c k) (accepted (keyboard_callback c k).0 es))
    ∙ rw (← keyboard_callback-contents c k v)
        (run-conserves (keyboard_callback c k).0 es (keyboard_callback-IsValid c k v))
run-conserves k (get ∷ es) v = rw ((keyboard_get_key-contents k v).0) (
    append_assoc (takes k) (contents (keyboard_get_key k).1) (accepted (keyboard_get_key k).1 es)
    ∙ rw (run-conserves (keyboard_get_key k).1 es (keyboard_get_key-IsValid k v))
        (sym (append_assoc (takes k) (reads (keyboard_get_key k).1 es) _)))
