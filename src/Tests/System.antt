-- ===== src/Tests/System.antt =====
-- A server under a sequence of operations.
use mathlib.Core.List.{Mem}
use vgate_server.Base.{Bool, ◌+◌, ◌≡◌, refl, ◌⊎◌, inl, List, [], ◌∷◌, true, All, arith}
use vgate_server.Base.Text.{Bytes, codes, bytes_key, nat_key, Bytes-discrete}
use vgate_server.Base.Dict.{get}
use vgate_server.Vless.Server.{Server, new_server}
use vgate_server.Vless.Protocol.{parse_uuid, hex_digit}
use vgate_server.Vless.Handler.Wire.{Reading, reject, unknown_user}
use vgate_server.Vless.Handler.{authorise}
use vgate_server.Vless.System.{
  Op, set_users, set_usage, collect, open_conn, count, end_conn, perform_all,
}
use vgate_server.Vless.System.Valid.{IsValid, new_server-IsValid}
use vgate_server.Vless.System.Preserve.{perform_all-IsValid}
use vgate_server.Vless.System.Account.{account, has_conn, react_all}
use vgate_server.Vless.System.Refines.{perform_all_refines}
use vgate_server.Vless.System.Emails.{OwnEmails, IsSupplied}
use vgate_server.Vless.System.Gate.{unlisted_refused}
use vgate_server.Vless.System.Budget.{user_over_quota-perform_all}
use vgate_server.Vless.Quota.{user_over_quota}
use vgate_server.Vless.System.Conserve.{reports, shares, perform_all_conserves}
use vgate_server.Vless.Traffic.Ledger.{upload, reported, pending}
use vgate_server.Vless.System.Closing.{IsGrown, perform_all-Kept}
use vgate_server.Tests.Fixture.{ext, alice, bob, alice_uuid, bob_uuid, served, usage_for_alice}

-- Two users, a connection and its bytes, and the revocation of one user.
abbrev day : List (Op ext)
day =
    set_users (alice ∷ bob ∷ [])
    ∷ open_conn alice_uuid 7
    ∷ set_usage (usage_for_alice 100 90 ∷ [])
    ∷ count alice_uuid [] 6 4
    ∷ collect
    ∷ set_users (bob ∷ [])
    ∷ end_conn alice_uuid 7
    ∷ []

abbrev fresh : Server ext
fresh = new_server ext

two_emails : OwnEmails (alice ∷ bob ∷ [])
two_emails = ground arith

day-IsSupplied : All IsSupplied day
day-IsSupplied = (two_emails, (tt, (tt, (tt, (tt, ((tt, tt), (tt, tt)))))))

perform_all-IsValid_example : IsValid (perform_all day fresh)
perform_all-IsValid_example = perform_all-IsValid day fresh (new_server-IsValid ext)

perform_all_refines_example :
    account alice_uuid (perform_all day fresh) ≡ react_all alice_uuid day (account alice_uuid fresh)
perform_all_refines_example =
    perform_all_refines alice_uuid day fresh (new_server-IsValid ext) tt day-IsSupplied

abbrev opening_read : Reading
opening_read = record { got = 0 ∷ alice_uuid; sizes = 17 ∷ []; enough = true; rest = [] }

-- The connection that comes late does not help.
abbrev late : List (Op ext)
late = open_conn alice_uuid 8 ∷ count alice_uuid [] 1 1 ∷ collect ∷ []

unlisted_refused_example :
    authorise alice_uuid opening_read (perform_all (set_users (bob ∷ []) ∷ late) fresh)
    ≡ reject unknown_user
unfolding Bytes-discrete parse_uuid hex_digit
unlisted_refused_example =
    unlisted_refused alice_uuid opening_read (bob ∷ []) late fresh (new_server-IsValid ext) tt refl
      ((tt, tt), (tt, (tt, (tt, tt)))) (tt, (tt, (tt, tt)))

perform_all-Kept_example :
    let t = perform_all day served in
    ((has_conn alice_uuid t 7 ≡ true) ⊎ Mem 7 t.closed) × IsGrown served.closed t.closed
unfolding get Bytes-discrete
perform_all-Kept_example = perform_all-Kept alice_uuid 7 day served (inl refl)

served-IsValid : IsValid served
unfolding get Bytes-discrete
served-IsValid = record {
  users = record {
    users_distinct = (refl, (refl, tt));
    u_distinct = tt;
    d_distinct = tt;
    quota_distinct = tt;
    strangers = λ uuid h. (refl, refl, refl);
  };
  conns = record { distinct = (refl, tt); live = ((λ h. cc, (refl, tt)), tt) };
  traffic = tt;
  sids = tt;
}

-- Fifteen bytes of Alice between other things.
abbrev busy : List (Op ext)
busy =
    count alice_uuid [] 5 0
    ∷ open_conn bob_uuid 8
    ∷ count bob_uuid [] 50 0
    ∷ set_users (alice ∷ bob ∷ [])
    ∷ collect
    ∷ count alice_uuid (codes "n") 0 10
    ∷ []

-- With the 90 bytes of the payload they reach 100.
user_over_quota-perform_all_example :
    user_over_quota alice_uuid (perform_all (set_usage (usage_for_alice 100 90 ∷ []) ∷ busy) served)
    ≡ true
unfolding get Bytes-discrete parse_uuid hex_digit
user_over_quota-perform_all_example =
    user_over_quota-perform_all alice_uuid 100 90 (usage_for_alice 100 90 ∷ []) busy served alice
      (usage_for_alice 100 90) served-IsValid (ground arith) refl refl refl refl
      (tt, (tt, (tt, (two_emails, (tt, (tt, tt))))))
      (tt, (tt, (tt, ((alice, refl), (tt, (tt, tt)))))) (omega arith) (omega arith)

-- Alice is counted, collected and removed.
abbrev short : List (Op ext)
short = count alice_uuid [] 3 4 ∷ collect ∷ set_users (bob ∷ []) ∷ []

abbrev everyone : Bytes → Bytes → Bool
everyone email node = true

perform_all_conserves_example :
    reported everyone upload (reports short served)
      + pending everyone upload (perform_all short served).user_traffic
    ≡ 0 + shares everyone upload short served
unfolding get Bytes-discrete
perform_all_conserves_example =
    perform_all_conserves everyone upload short 0 served tt ((λ h. cc), (tt, (tt, tt)))
      (omega arith)
