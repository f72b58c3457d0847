-- ===== src/Store/Shipped/Table.antt =====
-- internal/store/shipped.go: the columns the app ships, in the order they are laid out.
use models_db.Prelude.{String, Bool, true, false, Option, none, some, List, [], ◌∷◌}
use models_db.Shared.Number.{whole}
use models_db.Store.Source.{Source, open_router, hugging_face, app}
use models_db.Store.Schema.{ColorRules, ValueType, Resolve, first_stated, union}

-- shippedColumn
pub record ShippedColumn : Type 0 where
  pub key : String
  pub label : String
  pub value_type : ValueType
  pub unit : String
  pub about : String
  pub visible : Bool
  pub resolve : Resolve
  pub sources : List Source
  pub colors : Option ColorRules
  pub derived : String

-- priceColors
abbrev pub price_colors : ColorRules
price_colors = record {
  thresholds =
      record { below = whole 1; color = "#22c55e" }
      ∷ record { below = whole 2; color = "#eab308" }
      ∷ [];
  otherwise = "#ef4444";
  for_yes = "";
  for_no = "";
  for_options = [];
}

abbrev column :
    String
    → String
    → ValueType
    → String
    → String
    → Bool
    → Resolve
    → List Source
    → Option ColorRules
    → String
    → ShippedColumn
column key label value_type unit about visible resolve sources colors derived = record {
  key = key;
  label = label;
  value_type = value_type;
  unit = unit;
  about = about;
  visible = visible;
  resolve = resolve;
  sources = sources;
  colors = colors;
  derived = derived;
}

abbrev pub shipped_columns : List ShippedColumn
shipped_columns =
    column "model_type" "Type" ValueType.text ""
      "What kind of model this is: chat, image, embedding." true first_stated
      (open_router ∷ hugging_face ∷ Source.research ∷ []) none
      "what OpenRouter says the model gives out, and its description for audio"
    ∷ column "context_length" "Context length" ValueType.number "tokens"
        "How much context the model takes." true first_stated
        (open_router ∷ hugging_face ∷ Source.research ∷ []) none ""
    ∷ column "price_prompt" "In $" ValueType.number "USD per token" "What one input token costs."
        true first_stated (open_router ∷ Source.research ∷ []) (some price_colors) ""
    ∷ column "price_completion" "Out $" ValueType.number "USD per token"
        "What one output token costs." true first_stated (open_router ∷ Source.research ∷ [])
        (some price_colors) ""
    ∷ column "supports_tools" "Tool" ValueType.flag "" "Whether the model calls tools." true
        first_stated (open_router ∷ Source.research ∷ []) none
        "OpenRouter's supported parameters (tools or tool_choice)"
    ∷ column "supports_reasoning" "Reasoning" ValueType.flag "" "Whether the model reasons." true
        first_stated (open_router ∷ Source.research ∷ []) none
        "OpenRouter's supported parameters (reasoning)"
    ∷ column "zdr" "ZDR" ValueType.flag ""
        "Zero Data Retention: at least one company serving this model keeps no copy of what you send it."
        true first_stated (open_router ∷ Source.research ∷ []) none
        "OpenRouter's provider data policies"
    ∷ column "eu_routing" "EU" ValueType.flag ""
        "Whether OpenRouter can route this model through its EU address (In-Region Routing, which needs a Business or Enterprise plan): an endpoint for it is onboarded in the EU."
        true first_stated (open_router ∷ Source.research ∷ []) none "OpenRouter's EU model list"
    ∷ column "throughput" "Throughput" ValueType.number "tokens per second"
        "How fast the model answers, in tokens per second: the median speed of the fastest provider OpenRouter measures for it, over the last half hour. Empty where no provider is measured."
        true first_stated (open_router ∷ Source.research ∷ []) none
        "the fastest provider's median speed on OpenRouter"
    ∷ column "notes" "Note" ValueType.text "" "Anything you want to remember about this model." true
        first_stated (Source.hand ∷ []) none ""
    ∷ column "favorite" "Favourite" ValueType.flag "" "Your own star." true first_stated
        (Source.hand ∷ []) none ""
    ∷ column "moe" "MoE" ValueType.flag "" "Whether the model is a mixture of experts." false
        first_stated (hugging_face ∷ open_router ∷ Source.research ∷ []) none
        "the words of the OpenRouter description"
    ∷ column "id" "OpenRouter id" ValueType.text ""
        "The identifier OpenRouter serves this model under." false first_stated
        (open_router ∷ Source.research ∷ []) none ""
    ∷ column "slug" "OpenRouter slug" ValueType.text "" "The canonical slug of the listing." false
        first_stated (open_router ∷ Source.research ∷ []) none ""
    ∷ column "price_image" "Image $" ValueType.number "USD per image" "What one input image costs."
        false first_stated (open_router ∷ Source.research ∷ []) none ""
    ∷ column "price_audio" "Audio $" ValueType.number "USD per token"
        "What one audio input token costs." false first_stated (open_router ∷ Source.research ∷ [])
        none ""
    ∷ column "price_internal_reasoning" "Reasoning $" ValueType.number "USD per token"
        "What one internal reasoning token costs." false first_stated
        (open_router ∷ Source.research ∷ []) none ""
    ∷ column "vendor" "Vendor" ValueType.text ""
        "Who OpenRouter attributes the model to, read off the part of the id before the slash: google, mistralai, nvidia."
        false first_stated (open_router ∷ Source.research ∷ []) none
        "the part of the OpenRouter id before the slash"
    ∷ column "tokenizer" "Tokenizer" ValueType.text ""
        "Which tokenizer family the model uses, as OpenRouter classifies it." false first_stated
        (open_router ∷ Source.research ∷ []) none ""
    ∷ column "instruct_type" "Instruct type" ValueType.text ""
        "Which prompt template the model expects: chatml, llama3, deepseek-r1." false first_stated
        (open_router ∷ Source.research ∷ []) none ""
    ∷ column "supported_parameters" "Supported parameters" ValueType.list ""
        "Which request parameters the model accepts: temperature, top_p, seed." false first_stated
        (open_router ∷ Source.research ∷ []) none ""
    ∷ column "max_completion_tokens" "Max completion tokens" ValueType.number "tokens"
        "The longest answer the model will produce in one call." false first_stated
        (open_router ∷ Source.research ∷ []) none ""
    ∷ column "moderated" "Moderated" ValueType.flag ""
        "Whether the provider runs its own moderation over the calls." false first_stated
        (open_router ∷ Source.research ∷ []) none ""
    ∷ column "knowledge_cutoff" "Knowledge cutoff" ValueType.text ""
        "The date the model's training data stops at." false first_stated
        (open_router ∷ Source.research ∷ []) none ""
    ∷ column "expiration_date" "Expiration date" ValueType.text ""
        "The date the listing stops being served." false first_stated
        (open_router ∷ Source.research ∷ []) none ""
    ∷ column "reasoning_mandatory" "Reasoning mandatory" ValueType.flag ""
        "Whether the model always reasons and cannot be asked not to." false first_stated
        (open_router ∷ Source.research ∷ []) none ""
    ∷ column "alias_target" "Alias target" ValueType.text ""
        "The model this listing is an alias of, where it is one." false first_stated
        (open_router ∷ Source.research ∷ []) none ""
    ∷ column "price_cache_read" "Cache read price" ValueType.number "USD per token"
        "What one cached input token costs to read back." false first_stated
        (open_router ∷ Source.research ∷ []) none ""
    ∷ column "price_cache_write" "Cache write price" ValueType.number "USD per token"
        "What one input token costs to put into the cache." false first_stated
        (open_router ∷ Source.research ∷ []) none ""
    ∷ column "price_cache_write_1h" "Cache write price (1h)" ValueType.number "USD per token"
        "The same, for a cache entry kept an hour." false first_stated
        (open_router ∷ Source.research ∷ []) none ""
    ∷ column "price_audio_cache_read" "Audio cache read price" ValueType.number "USD per token"
        "What one cached audio input token costs to read back." false first_stated
        (open_router ∷ Source.research ∷ []) none ""
    ∷ column "price_audio_output" "Audio output price" ValueType.number "USD per token"
        "What one produced audio token costs." false first_stated
        (open_router ∷ Source.research ∷ []) none ""
    ∷ column "price_web_search" "Web search price" ValueType.number "USD per search"
        "What one web search made on the model's behalf costs." false first_stated
        (open_router ∷ Source.research ∷ []) none ""
    ∷ column "frame_images" "Frame images" ValueType.list ""
        "Which frame images a video model takes: first_frame, last_frame, or both." false
        first_stated (open_router ∷ Source.research ∷ []) none ""
    ∷ column "max_reference_images" "Reference images, at most" ValueType.number ""
        "How many reference images the model takes at most, as its OpenRouter listing or its model card states it; empty where nobody has said."
        false first_stated (open_router ∷ Source.research ∷ []) none ""
    ∷ column "reference_images" "Takes reference images" ValueType.flag ""
        "Whether the model takes reference images at all." false first_stated
        (open_router ∷ Source.research ∷ []) none ""
    ∷ column "repository" "Repository" ValueType.text ""
        "The HuggingFace repository this model's listing names." true first_stated
        (open_router ∷ hugging_face ∷ Source.research ∷ []) none ""
    ∷ column "description" "Description" ValueType.text ""
        "The description published for this model." true first_stated
        (open_router ∷ hugging_face ∷ Source.research ∷ []) none ""
    ∷ column "created_at" "Listed on" ValueType.text ""
        "When the listing or repository was created." true first_stated
        (open_router ∷ hugging_face ∷ Source.research ∷ []) none ""
    ∷ column "input_modalities" "Takes in" ValueType.list ""
        "What the model accepts: text, image, audio." true union
        (open_router ∷ hugging_face ∷ Source.research ∷ []) none ""
    ∷ column "output_modalities" "Gives out" ValueType.list "" "What the model produces." true union
        (open_router ∷ hugging_face ∷ Source.research ∷ []) none ""
    ∷ column "price_image_output" "Image output price" ValueType.number "USD per image"
        "What one produced image costs." false first_stated (open_router ∷ Source.research ∷ [])
        none ""
    ∷ column "price_unit" "Priced per" ValueType.text ""
        "What the model is charged by: 1M tokens, a second, a megapixel." true first_stated
        (open_router ∷ Source.research ∷ []) none "whether OpenRouter lists an input price"
    ∷ column "repo_owner" "Repo owner" ValueType.text ""
        "The account that published that repository, which is often somebody who republished a build rather than the model's maker: unsloth, bartowski."
        false first_stated (hugging_face ∷ Source.research ∷ []) none ""
    ∷ column "parameters" "Parameters (B)" ValueType.number "billions"
        "How many parameters the model has, in billions." false first_stated
        (hugging_face ∷ Source.research ∷ []) none ""
    ∷ column "active_parameters" "Active parameters (B)" ValueType.number "billions"
        "How many parameters a mixture-of-experts model actually runs per token, in billions. It equals the total on a model that is not one."
        false first_stated (Source.research ∷ []) none ""
    ∷ column "weights_size_gb" "Weights size (GB)" ValueType.number "GB"
        "How much disk the model's own weight files take." false first_stated
        (hugging_face ∷ Source.research ∷ []) none ""
    ∷ column "build_bits_per_weight" "Build bits per weight" ValueType.number "bits"
        "How many bits one weight takes in THIS downloadable build, measured from its own files."
        false first_stated (hugging_face ∷ Source.research ∷ []) none ""
    ∷ column "build_format" "Build format" ValueType.text ""
        "How the build is stored, with its quantization label: GGUF Q4_K_M, AWQ 4-bit, FP8." false
        first_stated (hugging_face ∷ Source.research ∷ []) none ""
    ∷ column "build_revision" "Build revision" ValueType.text ""
        "The exact commit that repository pointed at when it was read." false first_stated
        (hugging_face ∷ Source.research ∷ []) none ""
    ∷ column "build_files" "Build files" ValueType.text "" "Which file or files make up the build."
        false first_stated (hugging_face ∷ Source.research ∷ []) none ""
    ∷ column "build_size_bytes" "Build size (bytes)" ValueType.number "bytes"
        "The exact size of this build's own files, which is a different figure from the model's weights size."
        false first_stated (hugging_face ∷ Source.research ∷ []) none ""
    ∷ column "base_model" "Base model" ValueType.text ""
        "The model this build was made from, as the repository states it." false first_stated
        (hugging_face ∷ Source.research ∷ []) none ""
    ∷ column "gguf_architecture" "GGUF architecture" ValueType.text ""
        "The architecture name inside a GGUF file." false first_stated
        (hugging_face ∷ Source.research ∷ []) none ""
    ∷ column "architecture_basis" "Architecture" ValueType.text ""
        "How the model is built, as one line of facts: layers, what holds a cache, heads, weights. Yours to edit; an assistant fills it from the repository's config.json."
        false first_stated (Source.hand ∷ []) none ""
    ∷ column "added" "Added" ValueType.text ""
        "When this model first entered your catalog. It is not a listing date: no source states it, and nothing can work it out again, so it is written once when the row is created and never rewritten."
        false first_stated (app ∷ []) none ""
    ∷ []
