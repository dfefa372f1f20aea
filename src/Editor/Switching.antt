-- ===== src/Editor/Switching.antt =====
-- What a change of view does to the draft.
use april_profile_kilo.Base.{Text, some, ◌≡◌, ap, arith, none, refl, sym, text_eq_iff, ◌∙◌}
use april_profile_kilo.Editor.{
  Draft, Mode, Panels, handle_mode_change, parse_draft, refused, source, tree, form, schema,
}
use april_profile_kilo.Runtime.{Runtime}
use april_profile_kilo.Value.{Fields, object, Value}

module _ (rt : Runtime) (p : Panels) where
  -- Leaving the text view by a text that is no JSON object is refused: the view, the value and the
  -- text stay as they are, whatever view is asked for.
  pub bad_text_blocks :
      (m : Mode) (d : Draft) (message : Text)
      → d.mode ≡ source
      → parse_draft rt d.source_text ≡ refused message
      → ((handle_mode_change rt p m d).mode ≡ source)
        × ((handle_mode_change rt p m d).value ≡ d.value)
        × ((handle_mode_change rt p m d).source_text ≡ d.source_text)
  unfolding handle_mode_change
  bad_text_blocks form d message e h = ground arith
  bad_text_blocks tree d message e h = ground arith
  bad_text_blocks source d message e h = ground arith
  bad_text_blocks schema d message e h = ground arith

  show_text :
      (d : Draft)
      → d.mode ≡ tree
      → handle_mode_change rt p source d
        ≡ record d { mode = source; source_text = rt.pretty d.value; switch_error = none }
  unfolding handle_mode_change
  show_text d e = ground (arith, text_eq_iff (rt.pretty d.value) d.source_text)

  read_text :
      (d : Draft) (fs : Fields)
      → d.mode ≡ source
      → rt.parse d.source_text ≡ some (object fs)
      → handle_mode_change rt p tree d
        ≡ record d { mode = tree; value = object fs; switch_error = none }
  unfolding handle_mode_change
  read_text d fs e h = ground arith

  -- Showing the text of a draft and going back to the tree leaves its value, wherever the engine
  -- reads back the text that it writes for this value.
  pub text_round_trip :
      (d : Draft) (fs : Fields)
      → d.mode ≡ tree
      → d.value ≡ object fs
      → rt.parse (rt.pretty (object fs)) ≡ some (object fs)
      → ((handle_mode_change rt p tree (handle_mode_change rt p source d)).value ≡ d.value)
        × ((handle_mode_change rt p tree (handle_mode_change rt p source d)).mode ≡ tree)
  text_round_trip d fs e v h = rw (show_text d e) (
      rw
        (read_text
          (record d { mode = source; source_text = rt.pretty d.value; switch_error = none }) fs refl
          (ap (λ (w : Value). rt.parse (rt.pretty w)) v ∙ h))
        (sym v, refl))
