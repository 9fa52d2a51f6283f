-- ===== src/Ui/Router.antt =====
-- src/core/nfc_types.hpp and src/core/nfc_router.cpp: pages and sections, and the router.
use cap_cc1101_nfc.Base.{◌≡◌, Bool, true, false, not, List, [], ◌∷◌, if◌then◌else◌, arith}

pub data PageId : Type 0 where
  nfc count : PageId

pub data NfcSection : Type 0 where
  scan tag_detail reader_info count : NfcSection

abbrev pub page_eq : PageId → PageId → Bool
page_eq nfc nfc = true
page_eq PageId.count PageId.count = true
page_eq _ _ = false

-- The history with its newest page first.
pub record NfcRouter : Type 0 where
  pub current_page : PageId
  pub history : List PageId

unfoldable pub replace : PageId → NfcRouter → NfcRouter
replace page r = if not (page_eq r.current_page page) then record r { current_page = page } else r

unfoldable pub push : PageId → NfcRouter → NfcRouter
push page r =
    if page_eq r.current_page page
    then r
    else record { current_page = page; history = r.current_page ∷ r.history }

go_back : List PageId → NfcRouter → NfcRouter
unfolding replace
go_back [] r = replace nfc r
go_back (previous ∷ history) r = record { current_page = previous; history = history }

unfoldable pub back : NfcRouter → NfcRouter
unfolding go_back
back r = go_back r.history r

-- Going back from a page that was pushed over another one gives the router as it was.
pub back-push :
    (page : PageId) (r : NfcRouter) → page_eq r.current_page page ≡ false → back (push page r) ≡ r
unfolding back push replace go_back
back-push page r h = ground arith
