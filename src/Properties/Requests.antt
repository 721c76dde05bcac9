-- ===== src/Properties/Requests.antt =====
-- When the panel offers to view the model.
use workflowui.Base.{
  ◌≡◌, ◌≢◌, refl, ap, String, true, Option, none, some, ◌==◌, Bool-cases, inl, inr, arith,
  ne_of_eq_false,
}
use workflowui.Drawer.{ModelInspectRequest}
use workflowui.Store.{get}
use workflowui.Properties.{Config, words_of, is_ncnn, or_undefined, inspect_request}

or_undefined_named : (s : String) → or_undefined s ≢ some ""
or_undefined_named s = elim (Bool-cases (s == "")) [
  | inl blank ↦ λ h. cc (rw blank at h)
  | inr named ↦
      λ h. let same : s ≡ "" = ground (arith, rw named at h) in ne_of_eq_false s "" named same
]

-- A request to inspect a model names the vendor ncnn, the trimmed path of the parameters, which is
-- not empty, and a model path only if that is not empty; it is made only for a node whose vendor or
-- type says ncnn.
pub inspect_request_lem :
    (trim lower : String → String) (type : Option String) (config : Config)
    (r : ModelInspectRequest)
    → inspect_request trim lower type config ≡ some r
    → (r.vendor ≡ "ncnn")
      × (r.param_path ≡ trim (words_of (get "paramPath" config)))
      × (r.param_path ≢ "")
      × (r.model_path ≢ some "")
      × (is_ncnn trim lower type config ≡ true)
unfolding inspect_request
inspect_request_lem trim lower type config r h =
    let path = trim (words_of (get "paramPath" config)) in
    elim (Bool-cases (path == "")) [
      | inl blank ↦ cc (rw blank at h)
      | inr named ↦ elim (Bool-cases (is_ncnn trim lower type config)) [
        | inl ncnn ↦
            let made : ModelInspectRequest = record {
              vendor = "ncnn";
              param_path = path;
              model_path = or_undefined (trim (words_of (get "modelPath" config)));
            } in
            let same : made ≡ r =
              ap (λ (o : Option ModelInspectRequest). elim o [ none ↦ made | some x ↦ x ])
                (rw (named, ncnn) at h) in
            rw (← same) (refl, refl, ne_of_eq_false path "" named, or_undefined_named _, ncnn)
        | inr other ↦ cc (rw (named, other) at h)
      ]
    ]
