-- ===== src/Transfers.antt =====
-- src/ssh/transfer.rs: planning and running file transfers in both directions.
pub mod Walk
pub mod Copy
pub mod Runs
pub mod Parents
pub mod Accounts
pub mod Outcomes
pub mod Safety
pub mod Content
mod Tests
use ssh_control.Prelude.{
  ℕ, zero, suc, ◌+◌, ◌%◌, Bytes, List, [], ◌∷◌, ◌++◌, length, Bool, true, false, ◌&&◌, not, ◌==◌,
  if◌then◌else◌, Option, some, none, codes,
}
use ssh_control.Errors.{Result, AppError}
use ssh_control.Calls.{Call}
use ssh_control.Sftp.Wire.{Attrs}
use ssh_control.Sftp.Client.{RemoteEntry}

abbrev pub part_suffix : Bytes
part_suffix = codes ".part"

-- `/` as a byte.
abbrev pub slash : ℕ
slash = 47

pub data Direction : Type 0 where
  upload download : Direction

pub data SkipReason : Type 0 where
  exists_already symlink_skipped : SkipReason

pub record TransferItem : Type 0 where
  pub src : Bytes
  pub dst : Bytes
  pub is_dir : Bool
  pub size : ℕ
  pub exists : Bool
  pub skip : Option SkipReason

-- The last component: what follows the last `/`.
unfoldable pub after_last_slash : Bytes → Bytes → Bytes
after_last_slash [] kept = kept
after_last_slash (b ∷ bs) kept = elim (b == slash) [
  | true ↦ after_last_slash bs bs
  | false ↦ after_last_slash bs kept
]

-- A byte before what is left of the rest: a `/` with nothing left goes too.
abbrev pub keep_unless_last : ℕ → Bytes → Bytes
keep_unless_last b [] = if b == slash then [] else b ∷ []
keep_unless_last b (c ∷ rest) = b ∷ c ∷ rest

-- `trim_end_matches('/')`
unfoldable pub trim_slashes : Bytes → Bytes
trim_slashes [] = []
trim_slashes (b ∷ bs) = keep_unless_last b (trim_slashes bs)

unfoldable pub last_component : Bytes → Bytes
last_component path = after_last_slash (trim_slashes path) (trim_slashes path)

unfoldable pub display_name : TransferItem → Bytes
display_name item = after_last_slash item.dst item.dst

pub record TransferPlan : Type 0 where
  pub items : List TransferItem
  pub total_bytes : ℕ

abbrev pub is_none : {A : Type 0} → Option A → Bool
is_none none = true
is_none (some a) = false

-- Bytes are counted in 64 bits, which wrap around.
abbrev pub add_u64 : ℕ → ℕ → ℕ
add_u64 a b = (a + b) % 18446744073709551616

-- The indices of a list, from `i` on, at which a test passes.
abbrev pub indices : {A : Type 0} → (A → Bool) → ℕ → List A → List ℕ
indices test i [] = []
indices test i (x ∷ xs) = let rest = indices test (suc i) xs in if test x then i ∷ rest else rest

abbrev pub overwrites : TransferItem → Bool
overwrites item = item.exists && not item.is_dir && is_none item.skip

unfoldable pub conflicts : TransferPlan → List ℕ
conflicts plan = indices overwrites 0 plan.items

-- Whether an item is a file that will move.
abbrev pub moves : TransferItem → Bool
moves item = is_none item.skip && not item.is_dir

abbrev pub sum_sizes : List TransferItem → ℕ
sum_sizes [] = 0
sum_sizes (i ∷ items) = let rest = sum_sizes items in if moves i then add_u64 i.size rest else rest

unfoldable pub planned_bytes : TransferPlan → ℕ
planned_bytes plan = sum_sizes plan.items

abbrev pub count : {A : Type 0} → (A → Bool) → List A → ℕ
count test [] = 0
count test (x ∷ xs) = let rest = count test xs in if test x then suc rest else rest

unfoldable pub file_count : TransferPlan → ℕ
file_count plan = count moves plan.items

pub data TransferEvent : Type 0 where
  scanning : (files bytes : ℕ) → TransferEvent
  item_started : (index : ℕ) (name : Bytes) (size : ℕ) → TransferEvent
  progress : (done_bytes : ℕ) → TransferEvent
  item_finished : (index : ℕ) → TransferEvent
  item_skipped : (index : ℕ) (reason : SkipReason) → TransferEvent
  item_failed : (index : ℕ) (name : Bytes) (error : AppError) → TransferEvent

-- A failure is the item's name with its error.
pub record TransferSummary : Type 0 where
  pub files : ℕ
  pub bytes : ℕ
  pub skipped : ℕ
  pub failures : List (Bytes × AppError)
  pub cancelled : Bool

-- What the metadata of a local path says, links not followed.
pub data LocalMeta : Type 0 where
  meta_symlink meta_dir : LocalMeta
  meta_file : (len : ℕ) → LocalMeta

-- An entry of a local directory: its name where it is UTF-8, and its path.
pub record DirEntry : Type 0 where
  pub name : Option Bytes
  pub path : Bytes

-- The two ends of a transfer and the screen, over the state that they share: the SFTP session, the
-- local files of `std::fs` and the callback, which says whether to stop.
pub record Ends (W Handle File : Type 0) : Type 0 where
  pub stat : Bytes → Call W Attrs
  pub try_stat : Bytes → Call W (Option Attrs)
  pub list_dir : Bytes → Call W (List RemoteEntry)
  pub mkdir : Bytes → Call W (Unit {0})
  pub remove : Bytes → Call W (Unit {0})
  pub rename : Bytes → Bytes → Call W (Unit {0})
  pub open_read : Bytes → Call W Handle
  pub open_write : Bytes → Call W Handle
  pub read_chunk : Handle → ℕ → Call W Bytes
  pub write_chunk : Handle → ℕ → Bytes → Call W (Unit {0})
  pub close : Handle → Call W (Unit {0})
  pub local_len : Bytes → Call W ℕ
  pub symlink_metadata : Bytes → Call W LocalMeta
  pub read_dir : Bytes → Call W (List DirEntry)
  pub local_exists : Bytes → W → Bool
  pub local_is_dir : Bytes → W → Bool
  pub create_dir_all : Bytes → Call W (Unit {0})
  pub local_open : Bytes → Call W File
  pub local_create : Bytes → Call W File
  pub local_read : File → Call W Bytes
  pub local_write_all : File → Bytes → Call W (Unit {0})
  pub local_flush : File → Call W (Unit {0})
  pub local_rename : Bytes → Bytes → Call W (Unit {0})
  pub local_remove : Bytes → Call W (Unit {0})
  pub local_join : Bytes → Bytes → Bytes
  pub on_event : TransferEvent → W → W × Bool
