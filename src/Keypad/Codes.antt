-- ===== src/Keypad/Codes.antt =====
-- The key codes that src/input/nfc_keypad.cpp knows. The numbers of Linux's KEY_ constants and of
-- LVGL's LV_KEY_ constants are parameters.
use cap_cc1101_nfc.Base.{ℕ, Bool, List, [], ◌∷◌, Option, ◌==◌, if◌then◌else◌}
use cap_cc1101_nfc.Ui.App.{LvKeys}
use cap_cc1101_nfc.Ui.ViewModel.{key_help as nfc_key_help}

-- The constants that are named in the source.
pub data KeyName : Type 0 where
  key_esc key_enter key_kpenter key_backspace key_delete key_home key_end : KeyName
  key_up key_down key_left key_right key_help key_space key_tab : KeyName
  key_leftshift key_rightshift : KeyName
  key_a key_b key_c key_d key_e key_f key_g key_h key_i key_j key_k key_l key_m : KeyName
  key_n key_o key_p key_q key_r key_s key_t key_u key_v key_w key_x key_y key_z : KeyName
  key_0 key_1 key_2 key_3 key_4 key_5 key_6 key_7 key_8 key_9 : KeyName
  key_kp0 key_kp1 key_kp2 key_kp3 key_kp4 key_kp5 key_kp6 key_kp7 key_kp8 key_kp9 : KeyName
  key_kpdot key_kpcomma key_kpjpcomma key_kpminus key_kpplus key_kpasterisk : KeyName
  key_kpslash key_kpequal key_kpleftparen key_kprightparen : KeyName
  key_minus key_equal key_leftbrace key_rightbrace key_backslash key_semicolon : KeyName
  key_apostrophe key_grave key_comma key_dot key_slash key_102nd key_yen key_ro : KeyName

-- The numbers of the constants. A switch over them compiles only where they differ, so a number has
-- one name at most; `ev_key` is EV_KEY.
pub record KeyCodes : Type 0 where
  pub number : KeyName → ℕ
  pub name : ℕ → Option KeyName
  pub ev_key : ℕ

-- LVGL's constants, with those that only the keypad uses.
pub record KeypadKeys : Type 0 where
  pub base : LvKeys
  pub backspace : ℕ
  pub del : ℕ
  pub home : ℕ
  pub end_key : ℕ

-- kTca8418Keymap
abbrev pub tca8418_keymap : List (ℕ × ℕ)
tca8418_keymap =
    (183, b'!')
    ∷ (184, b'@')
    ∷ (185, b'#')
    ∷ (186, b'$')
    ∷ (187, b'%')
    ∷ (188, b'^')
    ∷ (189, b'&')
    ∷ (190, b'*')
    ∷ (191, b'(')
    ∷ (192, b')')
    ∷ (193, b'~')
    ∷ (194, b'`')
    ∷ (195, b'+')
    ∷ (196, b'-')
    ∷ (197, b'/')
    ∷ (198, b'\\')
    ∷ (199, b'{')
    ∷ (200, b'}')
    ∷ (201, b'[')
    ∷ (202, b']')
    ∷ (209, b'=')
    ∷ (210, b':')
    ∷ (211, b';')
    ∷ (212, b'_')
    ∷ (213, b'?')
    ∷ (214, b'<')
    ∷ (215, b'>')
    ∷ (216, b'\'')
    ∷ (217, b'"')
    ∷ (231, b',')
    ∷ (232, b'.')
    ∷ (233, b'|')
    ∷ []

-- The loop of tca8418Utf8; 0 is no entry.
abbrev pub find_text : List (ℕ × ℕ) → ℕ → ℕ
find_text [] code = 0
find_text ((entry, text) ∷ entries) code = if entry == code then text else find_text entries code

abbrev pub tca8418_utf8 : ℕ → ℕ
tca8418_utf8 code = find_text tca8418_keymap code

-- The switch of translateKey. The shift keys stand under no label.
abbrev pub translate_named : KeypadKeys → Bool → KeyName → ℕ
translate_named lv shifted key_esc = lv.base.esc
translate_named lv shifted key_enter = lv.base.enter
translate_named lv shifted key_kpenter = lv.base.enter
translate_named lv shifted key_backspace = lv.backspace
translate_named lv shifted key_delete = lv.del
translate_named lv shifted key_home = lv.home
translate_named lv shifted key_end = lv.end_key
translate_named lv shifted key_up = lv.base.up
translate_named lv shifted key_down = lv.base.down
translate_named lv shifted key_left = lv.base.left
translate_named lv shifted key_right = lv.base.right
translate_named lv shifted key_help = nfc_key_help
translate_named lv shifted key_a = if shifted then b'A' else b'a'
translate_named lv shifted key_b = if shifted then b'B' else b'b'
translate_named lv shifted key_c = if shifted then b'C' else b'c'
translate_named lv shifted key_d = if shifted then b'D' else b'd'
translate_named lv shifted key_e = if shifted then b'E' else b'e'
translate_named lv shifted key_f = if shifted then b'F' else b'f'
translate_named lv shifted key_g = if shifted then b'G' else b'g'
translate_named lv shifted key_h = if shifted then b'H' else b'h'
translate_named lv shifted key_i = if shifted then b'I' else b'i'
translate_named lv shifted key_j = if shifted then b'J' else b'j'
translate_named lv shifted key_k = if shifted then b'K' else b'k'
translate_named lv shifted key_l = if shifted then b'L' else b'l'
translate_named lv shifted key_m = if shifted then b'M' else b'm'
translate_named lv shifted key_n = if shifted then b'N' else b'n'
translate_named lv shifted key_o = if shifted then b'O' else b'o'
translate_named lv shifted key_p = if shifted then b'P' else b'p'
translate_named lv shifted key_q = if shifted then b'Q' else b'q'
translate_named lv shifted key_r = if shifted then b'R' else b'r'
translate_named lv shifted key_s = if shifted then b'S' else b's'
translate_named lv shifted key_t = if shifted then b'T' else b't'
translate_named lv shifted key_u = if shifted then b'U' else b'u'
translate_named lv shifted key_v = if shifted then b'V' else b'v'
translate_named lv shifted key_w = if shifted then b'W' else b'w'
translate_named lv shifted key_x = if shifted then b'X' else b'x'
translate_named lv shifted key_y = if shifted then b'Y' else b'y'
translate_named lv shifted key_z = if shifted then b'Z' else b'z'
translate_named lv shifted key_space = b' '
translate_named lv shifted key_tab = lv.base.next
translate_named lv shifted key_0 = if shifted then b')' else b'0'
translate_named lv shifted key_kp0 = if shifted then b')' else b'0'
translate_named lv shifted key_1 = if shifted then b'!' else b'1'
translate_named lv shifted key_kp1 = if shifted then b'!' else b'1'
translate_named lv shifted key_2 = if shifted then b'@' else b'2'
translate_named lv shifted key_kp2 = if shifted then b'@' else b'2'
translate_named lv shifted key_3 = if shifted then b'#' else b'3'
translate_named lv shifted key_kp3 = if shifted then b'#' else b'3'
translate_named lv shifted key_4 = if shifted then b'$' else b'4'
translate_named lv shifted key_kp4 = if shifted then b'$' else b'4'
translate_named lv shifted key_5 = if shifted then b'%' else b'5'
translate_named lv shifted key_kp5 = if shifted then b'%' else b'5'
translate_named lv shifted key_6 = if shifted then b'^' else b'6'
translate_named lv shifted key_kp6 = if shifted then b'^' else b'6'
translate_named lv shifted key_7 = if shifted then b'&' else b'7'
translate_named lv shifted key_kp7 = if shifted then b'&' else b'7'
translate_named lv shifted key_8 = if shifted then b'*' else b'8'
translate_named lv shifted key_kp8 = if shifted then b'*' else b'8'
translate_named lv shifted key_9 = if shifted then b'(' else b'9'
translate_named lv shifted key_kp9 = if shifted then b'(' else b'9'
translate_named lv shifted key_kpdot = b'.'
translate_named lv shifted key_kpcomma = b','
translate_named lv shifted key_kpjpcomma = b','
translate_named lv shifted key_kpminus = b'-'
translate_named lv shifted key_kpplus = b'+'
translate_named lv shifted key_kpasterisk = b'*'
translate_named lv shifted key_kpslash = b'/'
translate_named lv shifted key_kpequal = b'='
translate_named lv shifted key_kpleftparen = b'('
translate_named lv shifted key_kprightparen = b')'
translate_named lv shifted key_minus = if shifted then b'_' else b'-'
translate_named lv shifted key_equal = if shifted then b'+' else b'='
translate_named lv shifted key_leftbrace = if shifted then b'{' else b'['
translate_named lv shifted key_rightbrace = if shifted then b'}' else b']'
translate_named lv shifted key_backslash = if shifted then b'|' else b'\\'
translate_named lv shifted key_semicolon = if shifted then b':' else b';'
translate_named lv shifted key_apostrophe = if shifted then b'"' else b'\''
translate_named lv shifted key_grave = if shifted then b'~' else b'`'
translate_named lv shifted key_comma = if shifted then b'<' else b','
translate_named lv shifted key_dot = if shifted then b'>' else b'.'
translate_named lv shifted key_slash = if shifted then b'?' else b'/'
translate_named lv shifted key_102nd = if shifted then b'>' else b'<'
translate_named lv shifted key_yen = if shifted then b'|' else b'\\'
translate_named lv shifted key_ro = if shifted then b'_' else b'\\'
translate_named lv shifted key_leftshift = 0
translate_named lv shifted key_rightshift = 0
