-- ===== src/Eresult.antt =====
-- backend/internal/platform/steam/eresult.go: what the result code of a Steam answer means. `itoa` is
-- strconv.Itoa, and how fmt prints a number with %d.
pub mod Cooldown
use rent_auto.Prelude.{
  ℕ, String, Bool, true, false, ◌||◌, Option, none, some, List, [], ◌∷◌, ltb, eqb, any,
  if◌then◌else◌, text_append, ℤ, pos, negsuc, eqb_ℤ,
}
use rent_auto.Domain.{Error, auth_expired, rate_limited, Sentinel}

abbrev pub eresult_names : List (ℕ × String)
eresult_names =
    (1, "OK")
    ∷ (2, "Fail")
    ∷ (3, "NoConnection")
    ∷ (4, "NoConnectionRetry")
    ∷ (5, "InvalidPassword")
    ∷ (6, "LoggedInElsewhere")
    ∷ (7, "InvalidProtocolVer")
    ∷ (8, "InvalidParam")
    ∷ (9, "FileNotFound")
    ∷ (10, "Busy")
    ∷ (11, "InvalidState")
    ∷ (12, "InvalidName")
    ∷ (13, "InvalidEmail")
    ∷ (14, "DuplicateName")
    ∷ (15, "AccessDenied")
    ∷ (16, "Timeout")
    ∷ (17, "Banned")
    ∷ (18, "AccountNotFound")
    ∷ (19, "InvalidSteamID")
    ∷ (20, "ServiceUnavailable")
    ∷ (21, "NotLoggedOn")
    ∷ (22, "Pending")
    ∷ (23, "EncryptionFailure")
    ∷ (24, "InsufficientPrivilege")
    ∷ (25, "LimitExceeded")
    ∷ (26, "Revoked")
    ∷ (27, "Expired")
    ∷ (28, "AlreadyRedeemed")
    ∷ (29, "DuplicateRequest")
    ∷ (30, "AlreadyOwned")
    ∷ (31, "IPNotFound")
    ∷ (32, "PersistFailed")
    ∷ (33, "LockingFailed")
    ∷ (34, "LogonSessionReplaced")
    ∷ (35, "ConnectFailed")
    ∷ (36, "HandshakeFailed")
    ∷ (37, "IOFailure")
    ∷ (38, "RemoteDisconnect")
    ∷ (39, "ShoppingCartNotFound")
    ∷ (40, "Blocked")
    ∷ (41, "Ignored")
    ∷ (42, "NoMatch")
    ∷ (43, "AccountDisabled")
    ∷ (44, "ServiceReadOnly")
    ∷ (45, "AccountNotFeatured")
    ∷ (46, "AdministratorOK")
    ∷ (47, "ContentVersion")
    ∷ (48, "TryAnotherCM")
    ∷ (49, "PasswordRequiredToKickSession")
    ∷ (50, "AlreadyLoggedInElsewhere")
    ∷ (51, "Suspended")
    ∷ (52, "Cancelled")
    ∷ (53, "DataCorruption")
    ∷ (54, "DiskFull")
    ∷ (55, "RemoteCallFailed")
    ∷ (56, "PasswordUnset")
    ∷ (57, "ExternalAccountUnlinked")
    ∷ (58, "PSNTicketInvalid")
    ∷ (59, "ExternalAccountAlreadyLinked")
    ∷ (60, "RemoteFileConflict")
    ∷ (61, "IllegalPassword")
    ∷ (62, "SameAsPreviousValue")
    ∷ (63, "AccountLogonDenied")
    ∷ (64, "CannotUseOldPassword")
    ∷ (65, "InvalidLoginAuthCode")
    ∷ (66, "AccountLogonDeniedNoMail")
    ∷ (67, "HardwareNotCapableOfIPT")
    ∷ (68, "IPTInitError")
    ∷ (69, "ParentalControlRestricted")
    ∷ (70, "FacebookQueryError")
    ∷ (71, "ExpiredLoginAuthCode")
    ∷ (72, "IPLoginRestrictionFailed")
    ∷ (73, "AccountLockedDown")
    ∷ (74, "AccountLogonDeniedVerifiedEmailRequired")
    ∷ (75, "NoMatchingURL")
    ∷ (76, "BadResponse")
    ∷ (77, "RequirePasswordReEntry")
    ∷ (78, "ValueOutOfRange")
    ∷ (79, "UnexpectedError")
    ∷ (80, "Disabled")
    ∷ (81, "InvalidCEGSubmission")
    ∷ (82, "RestrictedDevice")
    ∷ (83, "RegionLocked")
    ∷ (84, "RateLimitExceeded")
    ∷ (85, "AccountLoginDeniedNeedTwoFactor")
    ∷ (86, "ItemDeleted")
    ∷ (87, "AccountLoginDeniedThrottle")
    ∷ (88, "TwoFactorCodeMismatch")
    ∷ (89, "TwoFactorActivationCodeMismatch")
    ∷ (90, "AccountAssociatedToMultiplePartners")
    ∷ (91, "NotModified")
    ∷ (92, "NoMobileDevice")
    ∷ (93, "TimeNotSynced")
    ∷ (94, "SmsCodeFailed")
    ∷ (95, "AccountLimitExceeded")
    ∷ (96, "AccountActivityLimitExceeded")
    ∷ (97, "PhoneActivityLimitExceeded")
    ∷ (98, "RefundToWallet")
    ∷ (99, "EmailSendFailure")
    ∷ (100, "NotSettled")
    ∷ (101, "NeedCaptcha")
    ∷ (102, "GSLTDenied")
    ∷ (103, "GSOwnerDenied")
    ∷ (104, "InvalidItemType")
    ∷ (105, "IPBanned")
    ∷ (106, "GSLTExpired")
    ∷ (107, "InsufficientFunds")
    ∷ (108, "TooManyPending")
    ∷ (109, "NoSiteLicensesFound")
    ∷ (110, "WGNetworkSendExceeded")
    ∷ (111, "AccountNotFriends")
    ∷ (112, "LimitedUserAccount")
    ∷ (113, "CantRemoveItem")
    ∷ (114, "AccountDeleted")
    ∷ (115, "ExistingUserCancelledLicense")
    ∷ (116, "CommunityCooldown")
    ∷ (117, "NoLauncherSpecified")
    ∷ (118, "MustAgreeToSSA")
    ∷ (119, "LauncherMigrated")
    ∷ []

unfoldable pub name_of : List (ℕ × String) → ℕ → Option String
name_of [] n = none
name_of ((k, name) ∷ names) n = let rest = name_of names n in if eqb k n then some name else rest

abbrev pub eresult_auth_expired : List ℕ
eresult_auth_expired = 5 ∷ 25 ∷ 84 ∷ 85 ∷ 87 ∷ 88 ∷ []

abbrev pub eresult_rate_limited : List ℕ
eresult_rate_limited = 10 ∷ 95 ∷ 96 ∷ 97 ∷ 108 ∷ 110 ∷ 116 ∷ []

unfoldable pub is_in : List ℕ → ℕ → Bool
is_in codes n = any (λ k. eqb k n) codes

abbrev pub or_number : Option String → String → String
or_number none number = number
or_number (some name) number = name

abbrev pub with_sentinel : Sentinel → String → String → Option Error
with_sentinel s text base =
    some (record { text = text_append text (text_append ": " base); chain = s ∷ [] })

-- the final switch, on whether the code is in each of the two sets
abbrev pub rejected_as : Bool → Bool → String → Option Error
rejected_as true rate base = with_sentinel auth_expired "platform: auth expired" base
rejected_as false true base = with_sentinel rate_limited "platform: rate limited" base
rejected_as false false base = some (record { text = base; chain = [] })

abbrev pub is_ignored : List ℤ → ℤ → Bool
is_ignored ignore e = any (λ k. eqb_ℤ e k) ignore

unfoldable pub check_eresult : (ℤ → String) → String → ℤ → List ℤ → Option Error
unfolding name_of is_in
check_eresult itoa method (negsuc _) ignore = none
check_eresult itoa method (pos n) ignore =
    if eqb n 1 || eqb n 22
    then none
    else if is_ignored ignore (pos n)
    then none
    else rejected_as (is_in eresult_auth_expired n) (is_in eresult_rate_limited n) (
        text_append "steam: " (
          text_append method (
            text_append " failed (eresult=" (
              text_append (itoa (pos n)) (
                text_append " "
                  (text_append (or_number (name_of eresult_names n) (itoa (pos n))) ")"))))))
