-- ===== src/Tests/Shares.antt =====
-- The share token theorems at concrete requests.
use webbpulse_python.Base.{
  arith, true, false, String, Option, none, some, List, [], ◌∷◌, ◌≡◌, ◌≢◌, refl,
}
use webbpulse_python.Base.Assoc.{lookup, insert}
use webbpulse_python.Base.Rows.{Rows-insert}
use webbpulse_python.Tests.{demo, differ}
use webbpulse_python.Identity.ShareTokens.{
  ShareTarget, ShareTokenRecord, ShareTokens, at_time, within_span, never, get, put, minted,
  mint_share_token, verify_share_token, revoke, revoke_share_token, touch,
}
use webbpulse_python.Identity.ShareTokens.Sharing.{ShareRequest, mints, verifies, step, run}
use webbpulse_python.Identity.ShareTokens.Opening.{Carries}
use webbpulse_python.Identity.ShareTokens.Final.{
  Hashed, revoke_share_token-final, mint_share_token-verify_share_token,
}

abbrev issue_target : ShareTarget
issue_target = record { kind = "issue"; id = "7" }

abbrev row : (random : String) → Option ShareTarget → ShareTokenRecord String
row random target = minted demo random "acme" "read" target "" "ada" (at_time 600) "" "T" 1000000

-- One token onto the issue, and one that has no target.
abbrev two_shares : ShareTokens String
two_shares = insert "wps_a" (row "a" (some issue_target)) (insert "wps_b" (row "b" none) [])

two_shares-Hashed : Hashed two_shares
unfolding lookup
two_shares-Hashed =
    Rows-insert (λ k r. r.token_hash ≡ k) "wps_a" (row "a" (some issue_target))
      (insert "wps_b" (row "b" none) []) refl
      (Rows-insert (λ k r. r.token_hash ≡ k) "wps_b" (row "b" none) [] refl
        (λ k r found. absurd (cc (found))))

-- The revoked token is presented, and another is minted.
abbrev after : List (ShareRequest String)
after =
    verifies "wps_a" "T" 3000000 true
    ∷ mints "c" "acme" "read" none "" "ada" never "" "T" 3000000
    ∷ []

revoke_share_token-final_example : (row "b" none).token_hash ≢ "wps_a"
unfolding run step verify_share_token mint_share_token revoke_share_token revoke get put touch
    lookup insert
revoke_share_token-final_example =
    revoke_share_token-final demo "wps_a" "" "T" "wps_b" "T" 4000000 false after two_shares
      (row "b" none) refl refl two_shares-Hashed (tt, (differ "wps_c" "wps_a" refl, tt)) refl

-- A token that lives for 598.5 seconds from the first second, in its last whole second.
mint_share_token-verify_share_token_example :
    let (plaintext, s') =
      mint_share_token demo "c" "acme" "read"
        (some issue_target)
        ""
        "ada"
        (within_span 598500000)
        ""
        "T"
        1000000
        two_shares in
    (r : ShareTokenRecord String) × ((verify_share_token demo plaintext "T" 598000000 true s').0
      ≡ some r)
    × Carries "acme" "read" (some issue_target) "" "ada" r
unfolding mint_share_token
mint_share_token-verify_share_token_example =
    mint_share_token-verify_share_token demo "c" "acme" "read" (some issue_target) "" "ada"
      (within_span 598500000) "" "T" "T" 1000000 598000000 true two_shares (omega arith)
