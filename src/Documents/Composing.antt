-- ===== src/Documents/Composing.antt =====
-- How version N of an agreement is made (generate, composeFromUpload and storeStampScan of
-- api/src/documents/documents.service.ts). The rendering and the conversion are an interface.
use onlineaggrement.Base.{ℕ, Bool, not, List, [], Option, none, some, String, Text, ◌==◌, Text_eq}
use onlineaggrement.Errors.{Result}
use onlineaggrement.Database.{
  FileKey, scan_file, Datum, generated_unsigned, prepared_unsigned, uploaded_source,
  composed_unsigned, unsigned,
}
use onlineaggrement.Service.{M, ◌>>=◌, ◌>>◌, return, from_result, branch}
use onlineaggrement.Documents.Storage.{put_object, exists_object}
use onlineaggrement.Documents.{Platform, StoredVersion, store}

pub record RenderInput : Type 0 where
  pub agreement_number : Text
  pub template_html : Text
  pub variables : List (String × Datum)
  pub stamp_scan : Option (List ℕ)

pub record Composed : Type 0 where
  pub buffer : List ℕ
  pub page_count : ℕ

-- What is used of the renderer and the composer of api/src/documents/pdf.
pub record Authoring : Type 0 where
  pub render : RenderInput → Result (List ℕ)
  pub to_pdf : List ℕ → String → String → Result (List ℕ)
  pub compose : List ℕ → Option (List ℕ) → Result Composed
  pub count_pages : List ℕ → Result ℕ

pub record GenerateParams : Type 0 where
  pub agreement_id : ℕ
  pub agreement_number : Text
  pub version : ℕ
  pub template_html : Text
  pub variables : List (String × Datum)
  pub stamp_scan : Option (List ℕ)

pub record ComposeParams : Type 0 where
  pub agreement_id : ℕ
  pub agreement_number : Text
  pub version : ℕ
  pub uploaded : List ℕ
  pub filename : String
  pub content_type : String
  pub stamp_scan : Option (List ℕ)

pub record ComposedVersion : Type 0 where
  pub stored : StoredVersion
  pub page_count : ℕ
  pub converted_from_word : Bool

module _ (platform : Platform) (authoring : Authoring) where
  unfoldable pub generate_document : GenerateParams → M StoredVersion
  generate_document params = do
    flat ← from_result (
        authoring.render (record {
          agreement_number = params.agreement_number;
          template_html = params.template_html;
          variables = params.variables;
          stamp_scan = params.stamp_scan;
        }))
    rendered ← store platform (record {
      agreement_id = params.agreement_id;
      agreement_number = params.agreement_number;
      version = params.version;
      doc = flat;
      doc_type = generated_unsigned;
      signature_state = none;
    })
    prepared ← from_result (platform.prepare flat)
    store platform (record {
      agreement_id = params.agreement_id;
      agreement_number = params.agreement_number;
      version = params.version;
      doc = prepared;
      doc_type = prepared_unsigned;
      signature_state = some unsigned;
    })

  unfoldable pub compose_from_upload : ComposeParams → M ComposedVersion
  compose_from_upload params = do
    as_pdf ← from_result (authoring.to_pdf params.uploaded params.filename params.content_type)
    source ← store platform (record {
      agreement_id = params.agreement_id;
      agreement_number = params.agreement_number;
      version = params.version;
      doc = as_pdf;
      doc_type = uploaded_source;
      signature_state = none;
    })
    composed ← from_result (authoring.compose as_pdf params.stamp_scan)
    flat ← store platform (record {
      agreement_id = params.agreement_id;
      agreement_number = params.agreement_number;
      version = params.version;
      doc = composed.buffer;
      doc_type = composed_unsigned;
      signature_state = none;
    })
    prepared ← from_result (platform.prepare composed.buffer)
    stored ← store platform (record {
      agreement_id = params.agreement_id;
      agreement_number = params.agreement_number;
      version = params.version;
      doc = prepared;
      doc_type = prepared_unsigned;
      signature_state = some unsigned;
    })
    return (record {
      stored = stored;
      page_count = composed.page_count;
      converted_from_word = not (as_pdf == params.uploaded);
    })

pub record StoredScan : Type 0 where
  pub file_key : FileKey
  pub document_hash : ℕ

-- `stamps/<the first digits of the hash>/<the hash>.pdf`: a function of the hash alone.
unfoldable pub scan_key : ℕ → FileKey
scan_key hash = record {
  agreement_number = [];
  version = 0;
  year = 0;
  month = 0;
  name = scan_file hash;
}

unfoldable pub store_stamp_scan : Platform → List ℕ → M StoredScan
store_stamp_scan platform scan = do
  let hash = platform.sha256 scan
  stored ← exists_object (scan_key hash)
  branch stored (return tt) (put_object (scan_key hash) scan)
  return (record { file_key = scan_key hash; document_hash = hash })
