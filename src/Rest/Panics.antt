-- ===== src/Rest/Panics.antt =====
-- Which of the drivers of the table of internal/providers/rest.go can panic.
use serpent_seek.Prelude.{
  ℤ, String, ◌≡◌, refl, ap, sym, inl, inr, ◌⊎◌, ◌↔◌, Bool, true, false, none, some, Dict, All, ◌&◌,
  In, ◌==◌, arith, Bool-cases, Option-cases, or_else, lookup,
}
use serpent_seek.Rest.Json.{Json, Floats, map_of, list_of}
use serpent_seek.Rest.Classify.{is_json_status}
use serpent_seek.Rest.Spec.{Query, Web, RestSpec}
use serpent_seek.Rest.Results.{Answer, extract_rows}
use serpent_seek.Rest.Search.{Driver, read_answer, search}
use serpent_seek.Rest.Extracts.{
  extract_serpapi, extract_searchapi, extract_firecrawl, extract_mojeek, extract_kagi,
  extract_youcom, extract_dataforseo, extract_exa, extract_parallel,
}
use serpent_seek.Rest.Papers.{
  extract_openalex, extract_semanticscholar, extract_crossref, extract_github, extract_hn,
  extract_stackexchange, extract_azure, extract_vectara,
}
use serpent_seek.Rest.Catalog.{rest_specs}
use serpent_seek.Rest.Catalog.Serp.{
  brave, serper, serpapi, searchapi, dataforseo, youcom, jina, firecrawl, mojeek, marginalia,
}
use serpent_seek.Rest.Catalog.Ai.{tavily, exa, linkup, perplexity, valyu, parallel, ollama}
use serpent_seek.Rest.Catalog.Vertical.{
  kagi, openalex, semanticscholar, crossref, github, hacker_news, stackexchange, azure_search,
  vectara, kendra,
}
use serpent_seek.Rest.Table.{All-In}
use serpent_seek.Rest.Waits.{IsSuccess, AsksToWait, throttle_lem, is_json_status_lem}
use serpent_seek.Rest.Crowded.{is_panics, HasCrowded, open_alex_rows_panic}
use serpent_seek.Rest.Outcome.{
  clash, is_panic, Gets, Extracted-cases, search_flag, respond_flag, search_reads,
}

never :
    (panicking first second : Bool) (M N : Type 0)
    → panicking ≡ false
    → first ≡ false
    → second ≡ false
    → (panicking ≡ true) ↔ (((first ≡ true) × M) ⊎ ((second ≡ true) × N))
never panicking first second M N calm other another = (
  λ h. absurd (clash h refl calm),
  λ e. elim e [ inl h ↦ absurd (clash h.0 refl other) | inr h ↦ absurd (clash h.0 refl another) ],
)

first_only :
    (panicking : Bool) (M N : Type 0)
    → (panicking ≡ true) ↔ M
    → (panicking ≡ true) ↔ (((true ≡ true) × M) ⊎ ((false ≡ true) × N))
first_only panicking M N own = (
  λ h. inl (refl, own.0 h),
  λ e. elim e [ inl h ↦ own.1 h.1 | inr h ↦ absurd (clash h.0 refl refl) ],
)

second_only :
    (panicking : Bool) (M N : Type 0)
    → (panicking ≡ true) ↔ N
    → (panicking ≡ true) ↔ (((false ≡ true) × M) ⊎ ((true ≡ true) × N))
second_only panicking M N own = (
  λ h. inr (refl, own.0 h),
  λ e. elim e [ inl h ↦ absurd (clash h.0 refl refl) | inr h ↦ own.1 h.1 ],
)

module _ {F : Type 0} (go : Floats F) (web : Web) where
  serpapi_total : (body : Dict (Json F)) → is_panics (extract_serpapi go body) ≡ false
  unfolding extract_serpapi
  serpapi_total body = ground arith

  searchapi_total : (body : Dict (Json F)) → is_panics (extract_searchapi go body) ≡ false
  unfolding extract_searchapi
  searchapi_total body = ground arith

  firecrawl_total : (body : Dict (Json F)) → is_panics (extract_firecrawl go body) ≡ false
  unfolding extract_firecrawl
  firecrawl_total body = ground arith

  mojeek_total : (body : Dict (Json F)) → is_panics (extract_mojeek go body) ≡ false
  unfolding extract_mojeek
  mojeek_total body = ground arith

  kagi_total : (body : Dict (Json F)) → is_panics (extract_kagi go body) ≡ false
  unfolding extract_kagi
  kagi_total body = ground arith

  youcom_panics :
      (body : Dict (Json F))
      → (is_panics (extract_youcom go body) ≡ true) ↔ (map_of (lookup "results" body) ≡ none)
  unfolding extract_youcom
  youcom_panics body = ground arith

  abbrev pub PanicsOn : RestSpec F → Dict (Json F) → Type 0
  PanicsOn spec body =
      (((spec.code == "youcom") ≡ true) × (map_of (lookup "results" body) ≡ none))
      ⊎ (((spec.code == "openalex") ≡ true) × HasCrowded go (list_of (lookup "results" body)))

  -- the condition on which the extraction of a driver panics
  abbrev pub PanicsAs : RestSpec F → Type 0
  PanicsAs spec =
      (body : Dict (Json F)) (params : Dict String)
      → (is_panics (extract_rows go spec body params) ≡ true) ↔ PanicsOn spec body

  All-PanicsAs : All PanicsAs (rest_specs go web)
  unfolding rest_specs extract_rows extract_dataforseo extract_exa extract_parallel extract_openalex
      extract_semanticscholar extract_crossref extract_github extract_hn extract_stackexchange
      extract_azure extract_vectara brave serper serpapi searchapi dataforseo youcom jina firecrawl
      mojeek marginalia tavily exa linkup perplexity valyu parallel ollama kagi openalex
      semanticscholar crossref github hacker_news stackexchange azure_search vectara kendra
  All-PanicsAs =
      (λ body params. never _ _ _ _ _ refl refl refl)
      & (λ body params. never _ _ _ _ _ refl refl refl)
      & (λ body params. never _ _ _ _ _ (serpapi_total body) refl refl)
      & (λ body params. never _ _ _ _ _ (searchapi_total body) refl refl)
      & (λ body params. never _ _ _ _ _ refl refl refl)
      & (λ body params. first_only _ _ _ (youcom_panics body))
      & (λ body params. never _ _ _ _ _ refl refl refl)
      & (λ body params. never _ _ _ _ _ (firecrawl_total body) refl refl)
      & (λ body params. never _ _ _ _ _ (mojeek_total body) refl refl)
      & (λ body params. never _ _ _ _ _ refl refl refl)
      & (λ body params. never _ _ _ _ _ refl refl refl)
      & (λ body params. never _ _ _ _ _ refl refl refl)
      & (λ body params. never _ _ _ _ _ refl refl refl)
      & (λ body params. never _ _ _ _ _ refl refl refl)
      & (λ body params. never _ _ _ _ _ refl refl refl)
      & (λ body params. never _ _ _ _ _ refl refl refl)
      & (λ body params. never _ _ _ _ _ refl refl refl)
      & (λ body params. never _ _ _ _ _ (kagi_total body) refl refl)
      & (λ body params.
          second_only _ _ _ (open_alex_rows_panic go (list_of (lookup "results" body))))
      & (λ body params. never _ _ _ _ _ refl refl refl)
      & (λ body params. never _ _ _ _ _ refl refl refl)
      & (λ body params. never _ _ _ _ _ refl refl refl)
      & (λ body params. never _ _ _ _ _ refl refl refl)
      & (λ body params. never _ _ _ _ _ refl refl refl)
      & (λ body params. never _ _ _ _ _ refl refl refl)
      & (λ body params. never _ _ _ _ _ refl refl refl)
      & (λ body params. never _ _ _ _ _ refl refl refl)
      & tt

module _ {F : Type 0} (go : Floats F) (web : Web) (driver : Driver F) (spec : RestSpec F)
    (q : Query) (c params : Dict String) where
  read_panic :
      (a : Answer) (ms : ℤ)
      → (is_panic (read_answer go web driver spec params a ms) ≡ true) ↔ (
          (is_json_status a.status ≡ true)
          × ((body : Dict (Json F)) × (driver.parse_object a.body ≡ some body)
              × (is_panics (extract_rows go spec body params) ≡ true)))
  unfolding read_answer
  read_panic a ms = elim (Bool-cases (is_json_status a.status)) [
    | inr failing ↦ rw (failing, read_answer) (λ h. ground (arith, h), λ good. ground (arith, good))
    | inl success ↦ elim (Option-cases (driver.parse_object a.body)) [
      | inl broken ↦
          rw (success, broken, read_answer)
            (
              λ h. ground (arith, h),
              λ (fine, (body, parsed, panic)). absurd (ground (arith, parsed)),
            )
      | inr (body, parsed) ↦ elim (Extracted-cases (extract_rows go spec body params)) [
        | inl panic ↦
            rw (success, parsed, panic, read_answer)
              (λ h. (refl, (body, refl, ap is_panics panic)), λ good. refl)
        | inr (rows, found) ↦
            rw (success, parsed, found, read_answer)
              (
                λ h. ground (arith, h),
                λ (fine, (other, same, panic)).
                    let one : body ≡ other = ap (λ o. or_else o body) same in
                    let calm = ap is_panics found in
                    absurd (
                      clash panic (ap (λ b. is_panics (extract_rows go spec b params)) (sym one))
                        calm),
              )
      ]
    ]
  ]

  -- A search by a driver of the table panics exactly if the upstream answers with success and an object, and the
  -- driver is that of You.com and `results` is not an object, or the driver is that of OpenAlex and a result with a link
  -- has an abstract with a word at a position at which make panics.
  pub search_panics :
      In spec (rest_specs go web)
      → (is_panic (search go web driver spec q c params) ≡ true) ↔ (
          (a : Answer) × Gets go web driver spec q c params a
          × ¬ AsksToWait go web driver spec a
          × IsSuccess a.status
          × ((body : Dict (Json F)) × (driver.parse_object a.body ≡ some body)
              × PanicsOn go web spec body))
  unfolding search
  search_panics listed =
      let panics_as =
        All-In (PanicsAs go web) spec (rest_specs go web) (All-PanicsAs go web) listed in
      (
        λ h. elim (search_flag go web driver spec q c params is_panic (λ r failing soft. refl) h) [
          | inl unbuilt ↦ absurd (ground (arith, (rw (unbuilt, search) at h)))
          | inr (a, gets, flag) ↦
              let (free, (ms, read)) =
                respond_flag go web driver spec q c params is_panic a (λ r failing soft. refl)
                  flag in
              let (success, (body, parsed, panic)) = (read_panic a ms).0 read in
              (
                a,
                gets,
                (throttle_lem go web driver spec a).0 free,
                (is_json_status_lem a.status).0 success,
                (body, parsed, (panics_as body params).0 panic),
              )
        ],
        λ (a, gets, free, success, (body, parsed, reason)).
            search_reads go web driver spec q c params is_panic a gets
              ((throttle_lem go web driver spec a).1 free)
              (λ ms. (read_panic a ms).1 (
                (is_json_status_lem a.status).1 success,
                (body, parsed, (panics_as body params).1 reason),
              )),
      )
