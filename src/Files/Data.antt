-- ===== src/Files/Data.antt =====
-- The data of `FileTabState`: public/file-tab-state.js.
use picot.Base.{ℕ, Bool, Option, List, nat_eq, option_eq, Text, text_eq}

pub record Tab : Type 0 where
  pub id : Text
  pub kind : Text
  pub file_path : Text
  pub file_name : Text
  pub mode : Text
  pub content : Option Text
  pub original_content : Option Text
  pub dirty : Bool
  pub loading : Bool
  pub saving : Bool
  pub conflict : Bool
  pub error : Option Text
  pub mtime_ms : Option ℕ
  pub editable : Option Bool
  pub render_as : Option Text
  pub truncated : Bool
  pub is_binary : Bool
  pub mime_type : Option Text
  pub size : Option ℕ
  pub save_error : Option Text
  pub error_detail : Option Text

-- The fields that a patch sets.
pub record TabPatch : Type 0 where
  pub id : Option Text
  pub kind : Option Text
  pub file_path : Option Text
  pub file_name : Option Text
  pub mode : Option Text
  pub content : Option (Option Text)
  pub original_content : Option (Option Text)
  pub dirty : Option Bool
  pub loading : Option Bool
  pub saving : Option Bool
  pub conflict : Option Bool
  pub error : Option (Option Text)
  pub mtime_ms : Option (Option ℕ)
  pub editable : Option (Option Bool)
  pub render_as : Option (Option Text)
  pub truncated : Option Bool
  pub is_binary : Option Bool
  pub mime_type : Option (Option Text)
  pub size : Option (Option ℕ)
  pub save_error : Option (Option Text)
  pub error_detail : Option (Option Text)

-- A tab as it is stored; what is no text is absent.
pub record StoredTab : Type 0 where
  pub id : Option Text
  pub kind : Option Text
  pub file_path : Option Text
  pub file_name : Option Text
  pub mode : Option Text

pub record RootState : Type 0 where
  pub tabs : List StoredTab
  pub active_tab_id : Option Text
  pub touched_at : ℕ

-- `available`: there is a storage; `writable`: `setItem` does not throw; `snapshot`: `byRoot`, if it parses.
pub record Storage : Type 0 where
  pub available : Bool
  pub writable : Bool
  pub snapshot : Option (List (Text × RootState))

pub record Metadata : Type 0 where
  pub file_name : Option Text
  pub mode : Option Text
  pub editable : Option Bool
  pub render_as : Option Text
  pub truncated : Bool
  pub is_binary : Bool
  pub mime_type : Option Text
  pub size : Option ℕ

pub record TabState : Type 0 where
  pub storage : Storage
  pub workspace_root : Option Text
  pub tabs : List Tab
  pub active_tab_id : Option Text
