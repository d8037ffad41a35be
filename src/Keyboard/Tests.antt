-- ===== src/Keyboard/Tests.antt =====
-- Runs of keyboard.c, and its theorems at a concrete keyboard.
use han_os.Base.{◌≡◌, refl, false, arith, some, none, List, [], ◌∷◌, ◌++◌, replicate}
use han_os.Keyboard.{Keyboard, Event, key, get, run, keyboard_callback, keyboard_get_key, char_of}
use han_os.Keyboard.Queue.{
  IsValid, contents, accepted, takes, reads, run-conserves, keyboard_get_key-IsValid,
}

abbrev fresh : Keyboard
fresh = record {
  key_buffer = replicate 129 0;
  buffer_length = 0;
  read_index = 0;
  write_index = 0;
  last_keypress = 0;
  key_pressed = λ i. false;
  ptr_to_update = none;
}

fresh-IsValid : IsValid fresh
fresh-IsValid = omega arith

-- `a`, then the left Shift held over `b`, with the releases between, and two reads
abbrev typing : List Event
typing = key 30 ∷ key 0x9e ∷ key 42 ∷ key 48 ∷ key 0xb0 ∷ key 0xaa ∷ get ∷ get ∷ get ∷ []

typed_text : reads fresh typing ≡ b'a' ∷ b'B' ∷ []
unfolding reads takes keyboard_callback han_os.Keyboard.keyboard_set_key char_of
    han_os.Keyboard.store keyboard_get_key
typed_text = refl

-- Ctrl and Shift with 1 switch to the command line and type nothing.
shortcut : (keyboard_callback 2 (run fresh (key 29 ∷ key 42 ∷ []))).1 ≡ some 1
unfolding keyboard_callback char_of run han_os.Keyboard.keyboard_set_key han_os.Keyboard.terminal_of
shortcut = refl

run-conserves_example :
    contents fresh ++ accepted fresh typing ≡ reads fresh typing ++ contents (run fresh typing)
run-conserves_example = run-conserves fresh typing fresh-IsValid

keyboard_get_key-IsValid_example : IsValid (keyboard_get_key fresh).1
keyboard_get_key-IsValid_example = keyboard_get_key-IsValid fresh fresh-IsValid
