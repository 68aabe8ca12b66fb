-- ===== src/Auth.antt =====
-- Sessions and sign-in: backend/src/auth/ and backend/src/users/users.service.ts. The tables of
-- database/init/03_identity_and_crm.sql and 09_soft_delete_and_permissions.sql are lists of rows;
-- ids are numbers, instants count milliseconds.
pub mod Users
pub mod Service
pub mod Controller
pub mod Permissions
pub mod Rotation
pub mod Chains
pub mod Histories
pub mod Sessions
pub mod Lockout
pub mod Factors
mod Tests
use arka_erp.Base.{ℕ, Bool, Option, List, [], ◌∷◌}
use arka_erp.Base.Texts.{Text, codes}
use arka_erp.Envelope.{Cipher}

-- A row of arka.users.
pub record User : Type 0 where
  pub id : ℕ
  pub email : Text
  pub full_name : Text
  pub role : Text
  pub password_hash : Text
  pub mfa_enabled : Bool
  pub mfa_secret_enc : Option Text
  pub is_active : Bool
  pub failed_logins : ℕ
  pub locked_until : Option ℕ
  pub last_login_at : Option ℕ
  pub password_changed_at : ℕ
  pub deleted_at : Option ℕ

-- A row of arka.refresh_tokens.
pub record Token : Type 0 where
  pub id : ℕ
  pub user_id : ℕ
  pub token_hash : Text
  pub family_id : ℕ
  pub user_agent : Option Text
  pub client_ip : Option Text
  pub expires_at : ℕ
  pub revoked_at : Option ℕ
  pub replaced_by : Option ℕ

-- Rows of arka.user_permissions and arka.role_permissions.
pub record UserGrant : Type 0 where
  pub user_id : ℕ
  pub permission : Text

pub record RoleGrant : Type 0 where
  pub role : Text
  pub permission : Text

pub record Store : Type 0 where
  pub users : List User
  pub tokens : List Token
  pub user_grants : List UserGrant
  pub role_grants : List RoleGrant
  pub permissions : List Text

-- The payloads of the two kinds of JWT.
pub record AccessTokenPayload : Type 0 where
  pub sub : ℕ
  pub email : Text
  pub role : Text
  pub name : Text
  pub perms : List Text
  pub mfa : Bool

pub data Payload : Type 0 where
  access : AccessTokenPayload → Payload
  stepup : ℕ → Payload

-- Which of the configured secrets signs a token.
pub data Secret : Type 0 where
  access_secret stepup_secret : Secret

-- What the services call and the configuration they read: argon2, SHA-256, the JWT library, otplib,
-- `lower` of PostgreSQL.
pub record Externals : Type 0 where
  pub cipher : Cipher
  pub lower : Text → Text
  pub hash : Text → Text → Text
  pub verify : Text → Text → Bool
  pub sha256 : Text → Text
  pub totp : Text → Text → ℕ → Bool
  pub sign : Secret → Payload → ℕ → Text
  pub verify_jwt : Secret → Text → ℕ → Option Payload
  pub refresh_ttl_days : ℕ

-- One call: the clock, and the random values that it may draw.
pub record Draw : Type 0 where
  pub now : ℕ
  pub new_id : ℕ
  pub new_family : ℕ
  pub raw : Text
  pub salt : Text
  pub iv : Text
  pub otp_secret : Text

-- ROLES
abbrev pub roles : List Text
roles =
    codes "CEO"
    ∷ codes "ACCOUNTANT"
    ∷ codes "SALES"
    ∷ codes "DESIGNER"
    ∷ codes "DEVELOPER"
    ∷ codes "PHOTOGRAPHER"
    ∷ codes "CUSTOMER"
    ∷ codes "GUEST"
    ∷ []
