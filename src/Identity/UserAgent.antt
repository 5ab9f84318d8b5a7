-- ===== src/Identity/UserAgent.antt =====
-- The labels that sessions.py reads from a user agent. The regular expression `_PRODUCT_TOKEN` is
-- a scanner: at a letter it takes at most 47 more name characters, which must end at a slash with
-- a version character behind it. No name character is a slash, so backtracking finds nothing more.
use Prim.Native.Char.{Char, code}
use webbpulse_python.Base.{
  ℕ, zero, suc, ◌+◌, ◌-◌, Bool, true, false, ◌&&◌, ◌||◌, not, String, Option, none, some, List, [],
  ◌∷◌, ◌==◌, leb, nat_eq, if◌then◌else◌, has_text, drop_text, mem_text,
}
use text.Mathlib.Text.{starts_with}
use webbpulse_python.Runtime.{Runtime}

abbrev between : ℕ → ℕ → ℕ → Bool
between lo hi c = leb lo c && leb c hi

abbrev is_letter : ℕ → Bool
is_letter c = between b'A' b'Z' c || between b'a' b'z' c

abbrev is_digit : ℕ → Bool
is_digit c = between b'0' b'9' c

-- `[A-Za-z0-9._-]`
abbrev is_name : ℕ → Bool
is_name c = is_letter c || is_digit c || nat_eq c b'.' || nat_eq c b'_' || nat_eq c b'-'

-- `[0-9A-Za-z._+-]`
abbrev is_version : ℕ → Bool
is_version c = is_name c || nat_eq c b'+'

-- The longest run of at most `n` name characters, its length, and what follows it.
take_name : ℕ → String → String × ℕ × String
take_name zero s = (String.[], 0, s)
take_name (suc n) String.[] = (String.[], 0, String.[])
take_name (suc n) (String.◌∷◌ c s) =
    let run = take_name n s in
    if is_name (code c)
    then (String.◌∷◌ c run.0, run.1 + 1, run.2)
    else (String.[], 0, String.◌∷◌ c s)

version_run : String → ℕ
version_run String.[] = 0
version_run (String.◌∷◌ c s) = let run = version_run s in if is_version (code c) then run + 1 else 0

-- The name, if the token's slash and version follow it, and the characters matched.
finish_token : String → ℕ → String → Option (String × ℕ)
unfolding version_run
finish_token name n String.[] = none
finish_token name n (String.◌∷◌ c s) =
    if nat_eq (code c) b'/' && leb 1 (version_run s)
    then some (name, n + 1 + version_run s)
    else none

-- A match of `_PRODUCT_TOKEN` that begins with the character `c`.
match_token : Char → String → Option (String × ℕ)
unfolding take_name finish_token
match_token c s =
    let run = take_name 47 s in
    if is_letter (code c) then finish_token (String.◌∷◌ c run.0) (run.1 + 1) run.2 else none

abbrev browser_tokens : List String
browser_tokens =
    "mozilla" ∷ "applewebkit" ∷ "khtml" ∷ "gecko" ∷ "chrome" ∷ "chromium" ∷ "crios" ∷ "fxios"
    ∷ "safari" ∷ "firefox" ∷ "version" ∷ "mobile" ∷ "edg" ∷ "edge" ∷ "edga" ∷ "edgios" ∷ "opr"
    ∷ "opera" ∷ "samsungbrowser" ∷ "electron" ∷ "cfnetwork" ∷ "darwin" ∷ "headlesschrome"
    ∷ "yabrowser" ∷ "vivaldi" ∷ "brave" ∷ "ucbrowser" ∷ "duckduckgo" ∷ "build" ∷ "android" ∷ "wv"
    ∷ "trident" ∷ "msie" ∷ []

abbrev browsers : List (String × String)
browsers =
    ("edg/", "Edge")
    ∷ ("edga/", "Edge")
    ∷ ("edgios/", "Edge")
    ∷ ("edge/", "Edge")
    ∷ ("opr/", "Opera")
    ∷ ("opera", "Opera")
    ∷ ("samsungbrowser/", "Samsung Internet")
    ∷ ("firefox/", "Firefox")
    ∷ ("fxios/", "Firefox")
    ∷ ("chrome/", "Chrome")
    ∷ ("chromium/", "Chrome")
    ∷ ("crios/", "Chrome")
    ∷ ("safari/", "Safari")
    ∷ []

abbrev platforms : List (String × String)
platforms =
    ("iphone", "iOS")
    ∷ ("ipad", "iOS")
    ∷ ("ipod", "iOS")
    ∷ ("cfnetwork", "iOS")
    ∷ ("android", "Android")
    ∷ ("cros ", "ChromeOS")
    ∷ ("windows", "Windows")
    ∷ ("win32", "Windows")
    ∷ ("win64", "Windows")
    ∷ ("macintosh", "macOS")
    ∷ ("mac os x", "macOS")
    ∷ ("macos", "macOS")
    ∷ ("darwin", "macOS")
    ∷ ("linux", "Linux")
    ∷ ("x11", "Linux")
    ∷ []

-- The label of the first needle in the text, or nothing.
first_label : List (String × String) → String → String
first_label [] text = ""
first_label ((needle, label) ∷ rest) text =
    let later = first_label rest text in if has_text needle text then label else later

module _ (rt : Runtime) where
  -- The loop over the matches; `skip` counts the characters that the last match still covers.
  scan : ℕ → String → String
  unfolding match_token
  scan skip String.[] = ""
  scan (suc skip) (String.◌∷◌ c s) = scan skip s
  scan zero (String.◌∷◌ c s) = elim (match_token c s) [
    | none ↦ scan zero s
    | some (name, width) ↦ elim (mem_text (rt.lower name) browser_tokens) [
      | true ↦ scan (width - 1) s
      | false ↦ name
    ]
  ]

  unfoldable pub client_from_user_agent : String → String
  unfolding scan
  client_from_user_agent user_agent = scan zero user_agent

  unfoldable pub browser_from_user_agent : String → String
  unfolding client_from_user_agent first_label
  browser_from_user_agent user_agent =
      if user_agent == "" || not (client_from_user_agent user_agent == "")
      then ""
      else first_label browsers (rt.lower user_agent)

  unfoldable pub platform_from_user_agent : String → String
  unfolding first_label
  platform_from_user_agent user_agent = first_label platforms (rt.lower user_agent)

-- `text.split(":", 1)[0]`
before_colon : String → String
before_colon String.[] = String.[]
before_colon (String.◌∷◌ c s) =
    let rest = before_colon s in if nat_eq (code c) b':' then String.[] else String.◌∷◌ c rest

unfoldable pub oauth_client_of_device : String → String
unfolding before_colon
oauth_client_of_device device =
    if starts_with device "mcp:" then before_colon (drop_text 4 device) else ""
