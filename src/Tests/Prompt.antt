-- ===== src/Tests/Prompt.antt =====
-- The hash of src/gemma4_prompt_renderer.cpp on the message of FIPS 180-4.
use branchscore.Base.{
  ◌≡◌, refl, ◌*◌, ◌%◌, ◌^◌, false, true, none, List, [], ◌∷◌, ◌++◌, codes, length, arith,
}
use branchscore.Decision.{DecisionOption}
use branchscore.Prompt.Padding.{padding, finalize-update}
use branchscore.Prompt.Render.{render}
use branchscore.Prompt.Slots.{SlotsFor, render-Outcome}
use branchscore.Result.{Outcome}
use branchscore.Tests.Codec.{unary_libc}
use branchscore.Prompt.Labels.{gemma4_extended_answer_labels}
use branchscore.Prompt.Sha256.{
  initial, update, finish, push_all, push, transform, compress, rounds, round, expand, next_word,
  rotate_right, block_words, fill, finalize,
}

labels_are_enough : length gemma4_extended_answer_labels ≡ 512
labels_are_enough = refl

abc_digest :
    finish (update initial (codes "abc"))
    ≡ codes "ba7816bf8f01cfea414140de5dae2223b00361a396177a9cb410ff61f20015ad"
unfolding finish update push_all push transform compress rounds round expand next_word rotate_right
    block_words fill finalize
abc_digest = refl

finalize-update_example :
    finalize (update initial (codes "abc"))
    ≡ (push_all initial (
        codes "abc"
        ++ padding (length (codes "abc") % 64) (length (codes "abc") * 8 % 2 ^ 64))).state
finalize-update_example = finalize-update (codes "abc")

abbrev two_options : List DecisionOption
two_options =
    record { id = codes "a"; description = codes "first" }
    ∷ record { id = codes "b"; description = codes "second" }
    ∷ []

render-Outcome_example :
    Outcome
      (λ prompt. SlotsFor 0 two_options prompt.answer_slots)
      (λ e. ⊥)
      (render unary_libc (codes "s") (codes "q") two_options false none true)
render-Outcome_example =
    render-Outcome unary_libc (codes "s") (codes "q") two_options false none true refl refl
      (omega arith) (omega arith)
