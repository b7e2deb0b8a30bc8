-- ===== src/RuntimeForm/Editor.antt =====
-- web/src/components/settings/runtime-form.tsx: loading, editing and saving one group of settings.
pub mod Flights
use purels.Base.{Bool, Option, [], false, if◌then◌else◌, none, not, some, true, ◌==◌, ◌∷◌}
use purels.I18n.Translate.Wording.{Thrown, api_error}
use purels.Js.Json.{Fields, Value, bool, end, field, obj, str, stringify}
use purels.Js.Number.{Numbers}
use purels.Js.Text.{Text, same}
use purels.RuntimeForm.{
  Changes, Draft, Raw, RuntimeGroup, Settings, changes, invalid, runtime_changes, runtime_draft,
  ticked, typed,
}

-- `{ ...current, [key]: value }`: a key that is there keeps its place.
unfoldable pub put_field : Draft → Text → Raw → Draft
unfolding same
put_field [] key raw = (key, raw) ∷ []
put_field ((k, r) ∷ fs) key raw =
    if same k key then (k, raw) ∷ fs else (k, r) ∷ put_field fs key raw

abbrev raw_json : Raw → Value
raw_json (typed s) = str s
raw_json (ticked b) = bool b

abbrev draft_fields : Draft → Fields
draft_fields [] = end
draft_fields ((k, r) ∷ fs) = field k (raw_json r) (draft_fields fs)

-- `JSON.stringify(draft)`.
unfoldable pub draft_json : Draft → Text
unfolding stringify
draft_json draft = stringify (obj (draft_fields draft))

abbrev is_conflict : Thrown → Bool
is_conflict (api_error e) = e.status == 409
is_conflict _ = false

-- What `errorText` is given, or the wording of an invalid number.
pub data Problem : Type 0 where
  load_failed : Thrown → Problem
  save_failed : Thrown → Problem
  invalid_number : Problem

module _ (n : Numbers) (group : RuntimeGroup) where
  open n use {Num}

  pub record Saved : Type 0 where
    pub revision : Num
    pub settings : Settings n

  pub data Answer : Type 0 where
    answered : Saved → Answer
    refused : Thrown → Answer

  -- The body of a PATCH.
  pub record Patch : Type 0 where
    pub base : Num
    pub edits : Settings n

  pub record Form : Type 0 where
    pub saved : Option Saved
    pub draft : Draft
    pub problem : Option Problem
    pub notice : Bool
    pub loading : Bool
    pub busy : Bool
    pub conflict : Bool

  abbrev pub mounted_form : Form
  mounted_form = record {
    saved = none;
    draft = [];
    problem = none;
    notice = false;
    loading = true;
    busy = false;
    conflict = false;
  }

  abbrev pub draft_of : Saved → Draft
  draft_of s = runtime_draft n s.settings group

  abbrev is_dirty_from : Option Saved → Draft → Bool
  is_dirty_from none draft = false
  is_dirty_from (some s) draft = not (same (draft_json draft) (draft_json (draft_of s)))

  unfoldable pub is_dirty : Form → Bool
  unfolding draft_json runtime_draft same
  is_dirty f = is_dirty_from f.saved f.draft

  -- `load`, before and after the answer.
  abbrev pub start_load : Form → Form
  start_load f = record f {
    saved = none;
    problem = none;
    notice = false;
    loading = true;
    conflict = false;
  }

  abbrev pub finish_load : Answer → Form → Form
  finish_load (answered s) f = record f { saved = some s; draft = draft_of s; loading = false }
  finish_load (refused e) f = record f { problem = some (load_failed e); loading = false }

  abbrev pub send_changes : Saved → Changes n → Form → Form × Option Patch
  send_changes s (invalid key) f = (record f { problem = some invalid_number }, none)
  send_changes s (changes []) f = (record f { draft = draft_of s }, none)
  send_changes s (changes (c ∷ cs)) f =
      (record f { busy = true }, some (record { base = s.revision; edits = c ∷ cs }))

  abbrev pub save_from : Option Saved → Form → Form × Option Patch
  save_from none f = (f, none)
  save_from (some s) f =
      if f.busy
      then (f, none)
      else send_changes s (runtime_changes n s.settings f.draft group)
          (record f { problem = none; notice = false })

  -- `save`, up to the request and after its answer.
  unfoldable pub save : Form → Form × Option Patch
  unfolding runtime_changes
  save f = save_from f.saved f

  abbrev pub finish_save : Answer → Form → Form
  finish_save (answered s) f = record f {
    saved = some s;
    draft = draft_of s;
    conflict = false;
    notice = true;
    busy = false;
  }
  finish_save (refused e) f = record f {
    conflict = is_conflict e;
    problem = some (save_failed e);
    busy = false;
  }

  abbrev pub edit : Text → Raw → Form → Form
  edit key raw f = record f { notice = false; draft = put_field f.draft key raw }

  abbrev pub discard : Saved → Form → Form
  discard s f = record f { draft = draft_of s; problem = none; notice = false }
