-- ===== src/Tests/Explanations.antt =====
-- An explanation of a forecast of the recurrent model.
use turbo_sh.Common.{
  ◌≡◌, refl, List, [], ◌∷◌, map, some, Millionths, millionths, Millionths-IsOrdered, arith, String,
}
use turbo_sh.DataLoader.{zip_with, rows2}
use turbo_sh.Neural.Lstm.{predict_proba}
use turbo_sh.Explainability.{Autograd, Explainer, ForecastExplanation, attribute_features, explain}
use turbo_sh.Explainability.Ranking.{IsExplanation, explain-IsExplanation}
use turbo_sh.Tests.{hundredths}
use turbo_sh.Tests.Models.{argmax-IsArgmax, numpy}
use turbo_sh.Tests.Networks.{torch, row_of, recurrent}

abbrev columns : List (List Millionths) → List Millionths
columns [] = []
columns (row ∷ []) = row
columns (row ∷ row' ∷ rows) = zip_with millionths.add row (columns (row' ∷ rows))

abbrev autograd : Autograd Millionths
autograd = record {
  gradient = λ x h c. map (map (λ y. hundredths 100)) x;
  abs = λ x. x;
  sum_columns = columns;
}

abbrev explainer : Explainer Millionths
explainer = record { model = recurrent; feature_names = "requests_per_ip_10s" ∷ "error_rate" ∷ [] }

abbrev window : List (List Millionths)
window = row_of 100 ∷ row_of 0 ∷ []

abbrev shares : List (String × Millionths)
shares = ("requests_per_ip_10s", some 333_333) ∷ ("error_rate", some 666_666) ∷ []

window-probs :
    predict_proba numpy torch.softmax recurrent (rows2 2 window) ≡ some (rows2 2 (row_of 0 ∷ []))
unfolding predict_proba
window-probs = refl

window-shares :
    attribute_features numpy torch.softmax autograd explainer (rows2 2 window) 1 (some 1)
    ≡ some shares
unfolding attribute_features
window-shares = refl

explain-IsExplanation_example :
    (e : ForecastExplanation Millionths) × (explain numpy torch.softmax autograd explainer
        (rows2 2 window)
        1
      ≡ some e)
    × IsExplanation numpy torch.softmax autograd (row_of 0) shares e
explain-IsExplanation_example =
    explain-IsExplanation numpy torch.softmax autograd argmax-IsArgmax Millionths-IsOrdered
      explainer (rows2 2 window) 1 2 (row_of 0 ∷ []) (hundredths 0) (hundredths 100 ∷ []) shares
      (omega arith) (omega arith) window-probs refl (refl, (refl, tt)) window-shares
      (refl, (refl, tt))
